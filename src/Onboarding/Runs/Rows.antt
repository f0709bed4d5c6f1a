-- ===== src/Onboarding/Runs/Rows.antt =====
-- packages/onboarding/src/rca_onboarding/runs_repo.py: the row that a start and an end of a run leave.
use industrial_rca.Prelude.{String, ℕ, ◌≡◌, refl, ap, ◌∙◌, Option, none, some, List, [], string_eq}
use industrial_rca.Prelude.Dict.{Dict, get, put, get-put_self}
use industrial_rca.Onboarding.Rows.{ProjectionCounts}
use industrial_rca.Onboarding.Runs.{Failure, RunRecord, Runs, create_run, complete_run}

abbrev pub started_row : String → String → String → Option (List String) → ℕ → RunRecord
started_row run_id workflow_id plant_id connection_ids started_at = record {
  run_id = run_id;
  workflow_id = workflow_id;
  plant_id = plant_id;
  status = "running";
  started_at = started_at;
  connection_ids = connection_ids;
  completed_at = none;
  per_category_results = [];
  counts = none;
  errors = [];
}

abbrev pub ended_row :
    String → Dict String String → ProjectionCounts → List Failure → ℕ → RunRecord → RunRecord
ended_row status results counts errors at rec = record rec {
  status = status;
  per_category_results = results;
  counts = some counts;
  errors = errors;
  completed_at = some at;
}

pub create_new :
    (run_id workflow_id plant_id : String) (ids : Option (List String)) (at : ℕ) (runs : Runs)
    → get run_id runs ≡ none
    → create_run run_id workflow_id plant_id ids at runs
      ≡ put run_id (started_row run_id workflow_id plant_id ids at) runs
unfolding create_run
create_new run_id workflow_id plant_id ids at runs e = rw (e, create_run) refl

complete_known :
    (run_id status : String) (results : Dict String String) (counts : ProjectionCounts)
    (errors : List Failure) (at : ℕ) (rec : RunRecord) (runs : Runs)
    → get run_id runs ≡ some rec
    → complete_run run_id status results counts errors at runs
      ≡ put run_id (ended_row status results counts errors at rec) runs
unfolding complete_run
complete_known run_id status results counts errors at rec runs e = rw (e, complete_run) refl

-- A start and an end of a new run.
pub both_rows :
    (run_id workflow_id plant_id : String) (ids : Option (List String)) (start : ℕ)
    (status : String) (results : Dict String String) (counts : ProjectionCounts)
    (errors : List Failure) (at : ℕ) (runs : Runs)
    → get run_id runs ≡ none
    → let row = started_row run_id workflow_id plant_id ids start in
      complete_run run_id status results counts errors at
        (create_run run_id workflow_id plant_id ids start runs)
      ≡ put run_id (ended_row status results counts errors at row) (put run_id row runs)
both_rows run_id workflow_id plant_id ids start status results counts errors at runs new =
    let row = started_row run_id workflow_id plant_id ids start in
    ap (complete_run run_id status results counts errors at)
      (create_new run_id workflow_id plant_id ids start runs new)
    ∙ complete_known run_id status results counts errors at row (put run_id row runs)
        (get-put_self run_id row runs)
