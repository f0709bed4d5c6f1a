-- ===== src/Onboarding/Runs.antt =====
-- packages/onboarding/src/rca_onboarding/runs_repo.py: `RunRecord` and the repository of runs in
-- memory; activities.py: the coverage report that writes to it; api.py: the lookup of a run.
pub mod Rows
use industrial_rca.Prelude.{
  ℕ, String, Bool, true, ◌&&◌, Option, none, some, List, [], ◌∷◌, str_eq, ltb, take, keep_if,
  if◌then◌else◌, string_eq,
}
use industrial_rca.Prelude.Dict.{Dict, get, put, values}
use industrial_rca.Onboarding.Rows.{ProjectionCounts}

-- An entry of `errors`: the name of the exception's type, and its text.
pub record Failure : Type 0 where
  pub error_type : String
  pub message : String

pub record RunRecord : Type 0 where
  pub run_id : String
  pub workflow_id : String
  pub plant_id : String
  pub status : String
  pub started_at : ℕ
  pub connection_ids : Option (List String)
  pub completed_at : Option ℕ
  pub per_category_results : Dict String String
  pub counts : Option ProjectionCounts
  pub errors : List Failure

abbrev pub Runs : Type 0
Runs = Dict String RunRecord

unfoldable pub create_run : String → String → String → Option (List String) → ℕ → Runs → Runs
create_run run_id workflow_id plant_id connection_ids started_at runs = elim (get run_id runs) [
  | some _ ↦ runs
  | none ↦
      put run_id
        (record {
          run_id = run_id;
          workflow_id = workflow_id;
          plant_id = plant_id;
          status = "running";
          started_at = started_at;
          connection_ids = connection_ids;
          completed_at = none;
          per_category_results = [];
          counts = none;
          errors = [];
        })
        runs
]

unfoldable pub complete_run :
    String → String → Dict String String → ProjectionCounts → List Failure → ℕ → Runs → Runs
complete_run run_id status results counts errors completed_at runs = elim (get run_id runs) [
  | none ↦ runs
  | some rec ↦
      put run_id
        (record rec {
          status = status;
          per_category_results = results;
          counts = some counts;
          errors = errors;
          completed_at = some completed_at;
        })
        runs
]

unfoldable pub get_run : String → Runs → Option RunRecord
get_run = get

unfoldable pub first_of_workflow : String → List RunRecord → Option RunRecord
first_of_workflow workflow_id [] = none
first_of_workflow workflow_id (r ∷ runs) =
    if str_eq r.workflow_id workflow_id then some r else first_of_workflow workflow_id runs

unfoldable pub get_run_by_workflow_id : String → Runs → Option RunRecord
unfolding first_of_workflow
get_run_by_workflow_id workflow_id runs = first_of_workflow workflow_id (values runs)

-- `GET /onboarding/runs/{id}`, with `none` for the 404.
unfoldable pub find_run : String → Runs → Option RunRecord
unfolding get_run get_run_by_workflow_id
find_run id runs = elim (get_run id runs) [
  | none ↦ get_run_by_workflow_id id runs
  | some rec ↦ some rec
]

-- The filters of `list_runs`, and its stable sort, the latest start first.
unfoldable pub run_listed : Option String → Option String → RunRecord → Bool
run_listed plant_id status r =
    elim plant_id [ none ↦ true | some p ↦ str_eq r.plant_id p ]
    && (elim status [ none ↦ true | some s ↦ str_eq r.status s ])

unfoldable pub insert_run : RunRecord → List RunRecord → List RunRecord
insert_run r [] = r ∷ []
insert_run r (x ∷ runs) =
    let rest = insert_run r runs in if ltb r.started_at x.started_at then x ∷ rest else r ∷ x ∷ runs

unfoldable pub sort_runs : List RunRecord → List RunRecord
unfolding insert_run
sort_runs [] = []
sort_runs (r ∷ runs) = insert_run r (sort_runs runs)

unfoldable pub list_runs : Option String → Option String → ℕ → Runs → List RunRecord
unfolding run_listed sort_runs
list_runs plant_id status limit runs =
    take limit (sort_runs (keep_if (run_listed plant_id status) (values runs)))
