-- ===== src/Lib.antt =====
-- The industrial RCA platform: how source connections are registered and activated, and how the
-- ids of source systems are bound to assets.
--
-- The parts and their files:
--   Connections/StateMachine   packages/connections_api/src/rca_connections_api/state_machine.py:
--     the life cycle of a connection, `assert_transition` and `assert_patch_transition`.
--   Connections/Registry       .../registry.py: `probe_for`. The wired probes are a parameter.
--   Connections/Router         .../connections_router.py. `Monad` holds the state `Api` (the
--     repository's connections and aliases, and the listener calls made so far) and the outcomes:
--     an answer, an HTTP error, or a repository error that nothing caught. `Requests` holds the
--     bodies and the environment, `Handlers` one function per endpoint, `Requested` a history of
--     requests. `Effects`, `Invariant`, `Requested`, `Guarantees`, `Gate` and `Gaps` are about them.
--     The list and get endpoints do not write, and are `list_handler` and `require`.
--   Mar/Rows                   the rows of packages/mar/src/rca_mar/repository.py, the test result of
--     packages/connector_sdk/src/rca_connector_sdk/health.py and the descriptor of
--     packages/contracts/src/rca_contracts/asset.py.
--   Mar/Repository             packages/mar/src/rca_mar/repository.py, `InMemoryRepository`:
--     `Connections` is the connection table, `Aliases` the alias rows and the three review paths,
--     `Pending` the list of bindings that await review.
--   Mar/Rules                  packages/mar/src/rca_mar/pattern_rules.py, `apply_rules`.
--   Mar/Resolution             packages/mar/src/rca_mar/resolution.py, `resolve_asset`: `Lookups` is
--     what it asks of the repository, `Resolve` its four steps and its two review writes.
--   Mar/Cache                  packages/mar/src/rca_mar/cache.py, `ResolutionCache`. `get_or_load` is
--     `lookup`, and, after the awaited loader, `store`; `Runs` interleaves calls at that point.
--   Sdk/Routing                packages/connector_sdk/src/rca_connector_sdk/routing.py, both routers,
--     with the `provider` of packages/agents/src/rca_agents/host.py.
--   Kg/Slugs                   packages/kg/src/rca_kg/slugs.py, `slug`.
--   Onboarding/Rows            packages/onboarding/src/rca_onboarding/models.py, and the crawl's models of
--     packages/connectors/asset_hierarchy.
--   Onboarding/Projection      .../activities.py, `_project_to_mar_impl`; `Settled` is about
--     one asset, `Bindings` its alias, `Apart` two assets, `Idempotent` a whole crawl.
--   Onboarding/Reconcile       .../activities.py, `_reconcile_decommission_impl`.
--   Onboarding/Graph           .../activities.py, the payload of `_project_to_kg_impl`.
--   Onboarding/Runs            .../runs_repo.py in memory, and the lookup of .../api.py.
--   Onboarding/Health          the connections of a run and their health checks.
--   Onboarding/Workflow        .../workflow.py, `OnboardingWorkflow`. Any activity may answer or fail for
--     good, which is a value; the HTTP client, the crawl and the graph are arguments.
--   Mqtt/Sparkplug             packages/connectors/mqtt/src/rca_connector_mqtt/sparkplug.py: `Encode` and
--     `Decode` are the two directions, `Varints`, `Fields`, `Metrics` and `RoundTrip` one on the other,
--     `Totality` the end of the decoder.
--   Mqtt/Topics, Aliases, Uns  .../uns_service.py, what a message does to the subscription state, and
--     `_build_recent` of .../server.py; Sdk/Subscription is the ring buffer of
--     packages/connector_sdk/src/rca_connector_sdk/subscription.py. The event sink keeps what it gets.
--   Llm/Client                 packages/llm/src/rca_llm/client.py, `LLMClientImpl.complete`, with the cache and
--     the audit in memory and the budget of packages/contracts; `Replay` is about two calls.
--   Agents/Contracts           packages/contracts, what the agents exchange.
--   Agents/Planning            packages/agents/src/rca_agents/planning_graph.py, the steps of a plan and the
--     answer to a proposal: `Baseline` is about the steps, `Bound` about plans that are rejected.
--   Agents/Analysis            .../rca_graph.py: `Words` the vocabularies, `Conclusion` the builders and the
--     validation, `Answers` the engineer's answers, `Nodes` the gaps and the loop of whys, `Legs`
--     `run_leg`. `Whys` is about the loop, `Steps` about a leg, `Waiting` and `Bound` about all legs,
--     `Duplicates` about a response that is sent twice, `Vocabulary`, `Validation` and
--     `Regeneration` about conclusions.
--   Agents/Gather              .../gather_graph.py: `Steps` runs the plan, `Documents` scores, `Anomalies`
--     detects, `Package` assembles, `Legs` asks; `Coverage` is about the steps, `Assembly` about the
--     package and `Window` about the legs.
--   Agents/Bridge              .../workflow.py, `_run_agent`, for any agent; `Signals` is the signal
--     `hitl_response` and the wait for it.
--   Agents/Probe               .../workflow.py: `Monad` its attributes, `Workflow` the run; `Posts`, `Reports`
--     and `Ending` are about it.
--   Prelude                    tests, lists and dictionaries that all parts share. A Python dict is
--     an association list in insertion order.
--
-- How they interact: the router checks a request against the state machine and writes rows through
-- the connection table, which refuses a second active row for a plant and a category. The resolver
-- reads aliases, the connection table and the pattern rules, and writes aliases or the queue of
-- unresolved ids. The registry router reads the active rows of the connection table and picks the
-- connection that serves a plant and a category. The onboarding lists the active connections of a
-- plant, crawls the healthy ones of its hierarchy, and writes assets and aliases to the repository.
-- A probe runs the planning, the gathering and the analysis one after another through the bridge,
-- hands the plan and the evidence on, and writes the conclusion that the engineer approved.
--
-- A handler runs from its request to its answer without another in between, except in `Gaps`, where
-- the write that follows an awaited probe meets a table that has changed. Times are numbers, UUIDs
-- and JSON objects are their texts. Confidences are numbers of ten-thousandths: the code compares
-- them and stores them, and never calculates with them. The clock, the next UUID, the secret
-- resolver, the probes and what a regular expression finds are arguments. A probe or a resolver
-- answers a value: a probe that raises ends its handler before the handler has written.
--
-- The provider of the host reads the PostgreSQL registry; here it reads a table as the in-memory
-- repository holds it. A request of the registry router meets no other between its look at the cache
-- and its write.
--
-- Every function is structurally recursive, but for the codec: a varint of n is written with fuel n + 1,
-- since each round divides by 128, and the fields of a buffer are read with its length as fuel, since a
-- field takes at least one byte. An outcome of the decoder for want of fuel is excluded by a theorem.
--
-- Not modelled: the PostgreSQL repository (SQL through an ORM), the environment variable of the
-- threshold, the loading and the validation of the rules,
-- searches, statistics and document embeddings of the repository, and the other
-- packages (the other connectors, the rest of their SDK, the rest of the agents, knowledge graph queries, simulators).
pub mod Prelude
pub mod Connections
pub mod Mar
pub mod Kg
pub mod Sdk
pub mod Onboarding
pub mod Mqtt
pub mod Llm
pub mod Agents
