-- ===== src/Onboarding/Health.antt =====
-- packages/onboarding/src/rca_onboarding/activities.py and workflow.py: the connections of a run and
-- their health. The source
-- behind a connection, the knowledge graph and the clock are arguments; an activity that fails for
-- good is a `Failure`.
pub mod Results
use industrial_rca.Prelude.{
  ℕ, String, Bool, true, false, ◌&&◌, ◌||◌, not, Option, none, some, List, [], ◌∷◌, str_eq, ltb,
  if◌then◌else◌, string_eq,
}
use Prim.Native.Char.{code}
use Prim.Native.String.{◌++◌ as str_append}
use industrial_rca.Prelude.Dict.{Dict, get, put}
use industrial_rca.Mar.Rows.{ConnectionRow, active, status_eq}
use industrial_rca.Mar.Repository.Connections.{get_connection, list_connections}
use industrial_rca.Mar.Repository.{InMemoryRepository}
use industrial_rca.Onboarding.Rows.{CrawlResult, HealthOutcome}
use industrial_rca.Onboarding.Graph.{KgNode}
use industrial_rca.Onboarding.Runs.{Failure}

pub record OnboardingInput : Type 0 where
  pub plant_id : String
  pub connection_ids : Option (List String)

pub data Answer {ℓ} (A : Type ℓ) : Type ℓ where
  answer : A → Answer A
  failed : Failure → Answer A

-- What lies outside: an HTTP status or an exception for a path, the crawl of a database, the number
-- of nodes that the graph upserts, and the readings of the clock; and which activity fails for good
-- after the runtime's retries, though its body may answer. A report may have been written before it
-- fails, and the registry is left in any way by a projection or a reconciliation that fails.
pub record Outside : Type 0 where
  pub http_get : String → String → Answer ℕ
  pub database_name : ConnectionRow → Answer String
  pub crawl : String → String → String → Answer CrawlResult
  pub upsert_hierarchy_nodes : List KgNode → Answer ℕ
  pub clock : ℕ → ℕ
  pub decimal : ℕ → String
  pub resolve_fails : Option Failure
  pub start_fails : Option (Failure × Bool)
  pub check_fails : ConnectionRow → Option Failure
  pub project_fails : ConnectionRow → Option (Failure × (InMemoryRepository → InMemoryRepository))
  pub reconcile_fails : ConnectionRow → Option (Failure × (InMemoryRepository → InMemoryRepository))
  pub end_fails : Option (Failure × Bool)

-- `resolve_connections`: the active connections of the plant, or those of the given ids.
unfoldable pub of_ids : String → List String → Dict String ConnectionRow → List ConnectionRow
unfolding get_connection
of_ids plant_id [] d = []
of_ids plant_id (cid ∷ ids) d =
    let rest = of_ids plant_id ids d in
    elim (get_connection cid d) [
      | none ↦ rest
      | some conn ↦
          if status_eq conn.status active && str_eq conn.plant_id plant_id
          then conn ∷ rest
          else rest
    ]

unfoldable pub resolve_connections :
    OnboardingInput → Dict String ConnectionRow → List ConnectionRow
unfolding of_ids list_connections
resolve_connections inp d = elim inp.connection_ids [
  | none ↦ list_connections (some inp.plant_id) none (some active) d
  | some ids ↦ elim ids [
    | [] ↦ list_connections (some inp.plant_id) none (some active) d
    | ◌∷◌ i more ↦ of_ids inp.plant_id (i ∷ more) d
  ]
]

unfoldable pub starts_with : String → String → Bool
starts_with String.[] s = true
starts_with (String.◌∷◌ p ps) String.[] = false
starts_with (String.◌∷◌ p ps) (String.◌∷◌ c s) =
    let rest = starts_with ps s in
    if ltb (code p) (code c) || ltb (code c) (code p) then false else rest

-- `health_check_connection`.
unfoldable pub health_check : Outside → ConnectionRow → HealthOutcome
unfolding starts_with
health_check out conn =
    let path = if str_eq conn.connector_type "pi_af" then "/assetdatabases" else "/openapi.json" in
    let outcome : Bool → Option String → HealthOutcome = λ ok error. record {
      connection_id = conn.connection_id;
      category = conn.category;
      ok = ok;
      error = error;
    } in
    if not (starts_with "http://" conn.base_url || starts_with "https://" conn.base_url)
    then outcome false (some (str_append "non-HTTP base_url not probeable: " conn.base_url))
    else (elim (out.http_get conn.base_url path) [
      | answer code ↦
          if ltb code 500
          then outcome true none
          else outcome false (some (str_append path (str_append " -> HTTP " (out.decimal code))))
      | failed e ↦ outcome false (some (str_append e.error_type (str_append ": " e.message)))
    ])

-- `asyncio.gather` raises when a check fails for good; of several, the first connection's is taken.
unfoldable pub lost_check : Outside → List ConnectionRow → Option Failure
lost_check out [] = none
lost_check out (conn ∷ conns) =
    let rest = lost_check out conns in elim (out.check_fails conn) [ some e ↦ some e | none ↦ rest ]

unfoldable pub health_decision : Bool → String
health_decision ok = if ok then "ok" else "skipped:connection_unhealthy"

unfoldable pub health_by_id :
    Outside → List ConnectionRow → Dict String HealthOutcome → Dict String HealthOutcome
unfolding health_check
health_by_id out [] d = d
health_by_id out (conn ∷ conns) d =
    let outcome = health_check out conn in
    health_by_id out conns (put outcome.connection_id outcome d)

-- The loop that fills `per_category_results`, with `none` for the `KeyError` of a missing outcome.
unfoldable pub category_results :
    Dict String HealthOutcome
    → List ConnectionRow
    → Dict String String
    → Option (Dict String String)
unfolding health_decision
category_results health [] results = some results
category_results health (conn ∷ conns) results = elim (get conn.connection_id health) [
  | none ↦ none
  | some outcome ↦
      category_results health conns (put conn.category (health_decision outcome.ok) results)
]
