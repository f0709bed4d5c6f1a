-- ===== src/Onboarding/Workflow.antt =====
-- packages/onboarding/src/rca_onboarding/workflow.py: `OnboardingWorkflow`, with the activities that
-- it runs on a healthy hierarchy connection. The text of a `KeyError` is not followed.
pub mod Outcomes
pub mod Coverage
use industrial_rca.Prelude.{
  String, Bool, true, false, ◌&&◌, Option, none, some, List, [], ◌∷◌, map, str_eq, string_eq, ℕ,
  if◌then◌else◌,
}
use industrial_rca.Prelude.Dict.{Dict, get}
use industrial_rca.Mar.Rows.{ConnectionRow}
use industrial_rca.Mar.Repository.{InMemoryRepository}
use industrial_rca.Onboarding.Rows.{
  CrawlResult, DiscoveredHierarchyNode, HealthOutcome, ProjectionCounts, no_counts, merged_with,
}
use industrial_rca.Onboarding.Projection.{ActivityDeps, project_to_mar}
use industrial_rca.Onboarding.Reconcile.{reconcile_decommission}
use industrial_rca.Onboarding.Graph.{hierarchy_payload}
use industrial_rca.Onboarding.Runs.{Failure, Runs, create_run, complete_run}
use industrial_rca.Onboarding.Health.{
  Answer, answer, failed, Outside, OnboardingInput, resolve_connections, lost_check, health_by_id,
  category_results,
}

-- `crawl_hierarchy`.
unfoldable pub crawl_hierarchy : Outside → ConnectionRow → Answer CrawlResult
crawl_hierarchy out conn = elim (out.database_name conn) [
  | failed e ↦ failed e
  | answer database ↦ out.crawl conn.base_url database conn.plant_id
]

-- `project_to_kg`, which an empty list does not reach.
unfoldable pub project_to_kg : Outside → List DiscoveredHierarchyNode → Answer ℕ
project_to_kg out [] = answer 0
project_to_kg out (node ∷ nodes) = elim (hierarchy_payload (node ∷ nodes)) [
  | none ↦ failed (record { error_type = "KeyError"; message = node.vendor_id })
  | some payload ↦ out.upsert_hierarchy_nodes payload
]

-- The last steps of `_project_hierarchy`, on the counts of the registry.
unfoldable pub reconcile_after :
    Outside
    → ActivityDeps
    → ConnectionRow
    → CrawlResult
    → ProjectionCounts
    → InMemoryRepository
    → Answer ProjectionCounts × InMemoryRepository
unfolding project_to_kg
reconcile_after out deps conn result counts repo = elim (project_to_kg out result.hierarchy_nodes) [
  | failed e ↦ (failed e, repo)
  | answer upserted ↦ elim (out.reconcile_fails conn) [
    | some (e, leaves) ↦ (failed e, leaves repo)
    | none ↦
        elim (reconcile_decommission out.clock deps.tenant_id conn.connection_id
          (map (λ a. a.vendor_id) result.assets) repo) [
            | none ↦
                (failed (record { error_type = "KeyError"; message = conn.connection_id }), repo)
            | some (decommissioned, after) ↦ (
              answer (
                  merged_with counts (record no_counts {
                    hierarchy_nodes_upserted = upserted;
                    assets_decommissioned = decommissioned;
                  })),
              after,
            )
          ]
  ]
]

unfoldable pub project_hierarchy :
    Outside
    → ActivityDeps
    → String
    → ConnectionRow
    → InMemoryRepository
    → Answer ProjectionCounts × InMemoryRepository
unfolding crawl_hierarchy reconcile_after
project_hierarchy out deps plant_id conn repo = elim (crawl_hierarchy out conn) [
  | failed e ↦ (failed e, repo)
  | answer result ↦ elim (out.project_fails conn) [
    | some (e, leaves) ↦ (failed e, leaves repo)
    | none ↦
        let projected = project_to_mar deps plant_id conn.connection_id result.assets repo in
        reconcile_after out deps conn result projected.0 projected.1
  ]
]

-- Where the loop over the connections has come to: the counts, the exception that stopped it, and
-- the repository.
pub record Progress : Type 0 where
  pub counts : ProjectionCounts
  pub failure : Option Failure
  pub repo : InMemoryRepository

unfoldable pub is_wanted : Dict String HealthOutcome → ConnectionRow → Bool
is_wanted health conn =
    str_eq conn.category "hierarchy"
    && (elim (get conn.connection_id health) [ none ↦ false | some outcome ↦ outcome.ok ])

unfoldable pub project_connections :
    Outside
    → ActivityDeps
    → String
    → Dict String HealthOutcome
    → List ConnectionRow
    → ProjectionCounts
    → InMemoryRepository
    → Progress
unfolding project_hierarchy is_wanted
project_connections out deps plant_id health [] counts repo = record {
  counts = counts;
  failure = none;
  repo = repo;
}
project_connections out deps plant_id health (conn ∷ conns) counts repo =
    elim (is_wanted health conn) [
      | false ↦ project_connections out deps plant_id health conns counts repo
      | true ↦
          let (outcome, after) = project_hierarchy out deps plant_id conn repo in
          elim outcome [
            | failed e ↦ record { counts = counts; failure = some e; repo = after }
            | answer more ↦
                project_connections out deps plant_id health conns (merged_with counts more) after
          ]
    ]

pub record OnboardingResult : Type 0 where
  pub run_id : String
  pub workflow_id : String
  pub status : String
  pub per_category_results : Dict String String
  pub counts : ProjectionCounts
  pub errors : List Failure

-- What the runtime hands to a run: its ids and the times at its start and its end.
pub record RunInfo : Type 0 where
  pub run_id : String
  pub workflow_id : String
  pub started_at : ℕ
  pub completed_at : ℕ

abbrev pub status_of_run : Option Failure → String
status_of_run none = "completed"
status_of_run (some e) = "failed"

abbrev pub errors_of : Option Failure → List Failure
errors_of none = []
errors_of (some e) = e ∷ []

-- The body of the `try`: the per-category results, and how far the projection came.
unfoldable pub attempt :
    Outside
    → ActivityDeps
    → OnboardingInput
    → List ConnectionRow
    → InMemoryRepository
    → Dict String String × Progress
unfolding lost_check health_by_id category_results project_connections
attempt out deps inp conns repo = elim (lost_check out conns) [
  | some e ↦ ([], record { counts = no_counts; failure = some e; repo = repo })
  | none ↦
      let health = health_by_id out conns [] in
      elim (category_results health conns []) [
        | none ↦ (
          [],
          record {
            counts = no_counts;
            failure = some (record { error_type = "KeyError"; message = "" });
            repo = repo;
          },
        )
        | some results ↦
            (results, project_connections out deps inp.plant_id health conns no_counts repo)
      ]
]

abbrev pub result_of : RunInfo → Dict String String × Progress → OnboardingResult
result_of info (results, progress) = record {
  run_id = info.run_id;
  workflow_id = info.workflow_id;
  status = status_of_run progress.failure;
  per_category_results = results;
  counts = progress.counts;
  errors = errors_of progress.failure;
}

-- The coverage report at the end writes the result into the row.
abbrev pub ended_runs : RunInfo → OnboardingResult → Runs → Runs
ended_runs info r =
    complete_run info.run_id r.status r.per_category_results r.counts r.errors info.completed_at

-- The end of a run: the report, and the result.
unfoldable pub closing :
    Option (Failure × Bool)
    → RunInfo
    → Dict String String × Progress
    → Runs
    → Answer OnboardingResult × (Runs × InMemoryRepository)
closing none info tried runs =
    (answer (result_of info tried), (ended_runs info (result_of info tried) runs, tried.1.repo))
closing (some (e, wrote)) info tried runs =
    (failed e, (if wrote then ended_runs info (result_of info tried) runs else runs, tried.1.repo))

abbrev pub started_runs : RunInfo → OnboardingInput → Runs → Runs
started_runs info inp =
    create_run info.run_id info.workflow_id inp.plant_id inp.connection_ids info.started_at

-- The report at the start, the attempt and the end.
unfoldable pub opening :
    Option (Failure × Bool)
    → Outside
    → ActivityDeps
    → RunInfo
    → OnboardingInput
    → Runs × InMemoryRepository
    → Answer OnboardingResult × (Runs × InMemoryRepository)
unfolding attempt closing resolve_connections
opening (some (e, wrote)) out deps info inp (runs, repo) =
    (failed e, (if wrote then started_runs info inp runs else runs, repo))
opening none out deps info inp (runs, repo) =
    closing out.end_fails info
      (attempt out deps inp (resolve_connections inp repo.connections) repo)
      (started_runs info inp runs)

-- A failure of the first activity or of a report is not caught.
unfoldable pub run :
    Outside
    → ActivityDeps
    → RunInfo
    → OnboardingInput
    → Runs × InMemoryRepository
    → Answer OnboardingResult × (Runs × InMemoryRepository)
unfolding opening
run out deps info inp (runs, repo) = elim out.resolve_fails [
  | some e ↦ (failed e, (runs, repo))
  | none ↦ opening out.start_fails out deps info inp (runs, repo)
]
