-- ===== src/Onboarding/Workflow/Outcomes.antt =====
-- packages/onboarding/src/rca_onboarding/workflow.py: what a run returns, and the row that it leaves.
use industrial_rca.Prelude.{
  String, Bool, true, false, ◌≡◌, ◌≢◌, refl, ap, ◌∙◌, Option, none, some, [], ◌∷◌, ◌⊎◌, inl, inr,
  string_eq, if◌then◌else◌, Option-cases,
}
use industrial_rca.Prelude.Dict.{Dict, get, put, get-put_self, get-put_ne}
use industrial_rca.Mar.Repository.{InMemoryRepository}
use industrial_rca.Onboarding.Projection.{ActivityDeps}
use industrial_rca.Onboarding.Runs.{Failure, RunRecord, Runs, get_run}
use industrial_rca.Onboarding.Health.{Answer, answer, failed, Outside, OnboardingInput}
use industrial_rca.Onboarding.Workflow.{
  Progress, OnboardingResult, closing, opening, run, RunInfo, status_of_run, errors_of,
  started_runs, ended_runs, result_of,
}
use industrial_rca.Onboarding.Runs.Rows.{create_new, both_rows}

-- The row of a run that has begun, and of one that has ended.
abbrev pub running : RunInfo → OnboardingInput → RunRecord
running info inp = record {
  run_id = info.run_id;
  workflow_id = info.workflow_id;
  plant_id = inp.plant_id;
  status = "running";
  started_at = info.started_at;
  connection_ids = inp.connection_ids;
  completed_at = none;
  per_category_results = [];
  counts = none;
  errors = [];
}

abbrev pub reporting : RunInfo → OnboardingInput → OnboardingResult → RunRecord
reporting info inp r = record {
  run_id = info.run_id;
  workflow_id = info.workflow_id;
  plant_id = inp.plant_id;
  status = r.status;
  started_at = info.started_at;
  connection_ids = inp.connection_ids;
  completed_at = some info.completed_at;
  per_category_results = r.per_category_results;
  counts = some r.counts;
  errors = r.errors;
}

-- The status tells whether there is an error.
abbrev pub IsVerdict : OnboardingResult → Type 0
IsVerdict r =
    ((r.status ≡ "completed") × (r.errors ≡ []))
    ⊎ ((r.status ≡ "failed") × ((e : Failure) × (r.errors ≡ e ∷ [])))

-- What is left under the id of a run, by what the run comes to: a result that it returns, or a failure
-- of the first activity, of the report at the start or of the one at the end.
abbrev pub IsReported :
    Outside → RunInfo → OnboardingInput → Answer OnboardingResult → Option RunRecord → Type 0
IsReported out info inp (answer r) row = IsVerdict r × (row ≡ some (reporting info inp r))
IsReported out info inp (failed e) row =
    ((out.resolve_fails ≡ some e) × (row ≡ none))
    ⊎ ((wrote : Bool) × (out.start_fails ≡ some (e, wrote))
        × (row ≡ (if wrote then some (running info inp) else none)))
    ⊎ ((wrote : Bool) × (r : OnboardingResult) × (out.end_fails ≡ some (e, wrote))
        × IsVerdict r
        × (row ≡ some (if wrote then reporting info inp r else running info inp)))

module _ (out : Outside) (info : RunInfo) (inp : OnboardingInput) (runs : Runs)
    (new : get info.run_id runs ≡ none) where
  begun : started_runs info inp runs ≡ put info.run_id (running info inp) runs
  begun =
      create_new info.run_id info.workflow_id inp.plant_id inp.connection_ids info.started_at runs
        new

  ended :
      (r : OnboardingResult)
      → ended_runs info r (started_runs info inp runs)
        ≡ put info.run_id (reporting info inp r) (put info.run_id (running info inp) runs)
  ended r =
      both_rows info.run_id info.workflow_id inp.plant_id inp.connection_ids info.started_at
        r.status r.per_category_results r.counts r.errors info.completed_at runs new

  -- Only the row under the run's id is written.
  abbrev Elsewhere : Runs → Type 0
  Elsewhere after = (id : String) → info.run_id ≢ id → get id after ≡ get id runs

  begun-Elsewhere : Elsewhere (started_runs info inp runs)
  begun-Elsewhere id n = ap (get id) begun ∙ get-put_ne info.run_id id _ runs n

  begun_row : get info.run_id (started_runs info inp runs) ≡ some (running info inp)
  begun_row = ap (get info.run_id) begun ∙ get-put_self info.run_id (running info inp) runs

  ended-Elsewhere :
      (r : OnboardingResult) → Elsewhere (ended_runs info r (started_runs info inp runs))
  ended-Elsewhere r id n =
      ap (get id) (ended r)
      ∙ get-put_ne info.run_id id _ (put info.run_id (running info inp) runs) n
      ∙ get-put_ne info.run_id id _ runs n

  ended_row_of :
      (r : OnboardingResult)
      → get info.run_id (ended_runs info r (started_runs info inp runs))
        ≡ some (reporting info inp r)
  ended_row_of r =
      ap (get info.run_id) (ended r)
      ∙ get-put_self info.run_id (reporting info inp r) (put info.run_id (running info inp) runs)

  verdict :
      (r : OnboardingResult) (f : Option Failure)
      → r.status ≡ status_of_run f
      → r.errors ≡ errors_of f
      → IsVerdict r
  verdict r none s e = inl (s, e)
  verdict r (some x) s e = inr (s, (x, e))

  -- What a run comes to, with what it leaves.
  abbrev Leaves : Answer OnboardingResult × (Runs × InMemoryRepository) → Type 0
  Leaves o = IsReported out info inp o.0 (get info.run_id o.1.0) × Elsewhere o.1.0

  closing-Leaves :
      (end : Option (Failure × Bool)) (r : Dict String String × Progress)
      → out.end_fails ≡ end
      → Leaves (closing end info r (started_runs info inp runs))
  unfolding closing
  closing-Leaves none t q =
      let r = result_of info t in
      ((verdict r t.1.failure refl refl, ended_row_of r), ended-Elsewhere r)
  closing-Leaves (some (e, true)) t q =
      let r = result_of info t in
      (inr (inr (true, r, q, verdict r t.1.failure refl refl, ended_row_of r)), ended-Elsewhere r)
  closing-Leaves (some (e, false)) t q =
      let r = result_of info t in
      (inr (inr (false, r, q, verdict r t.1.failure refl refl, begun_row)), begun-Elsewhere)

  opening-Leaves :
      (start : Option (Failure × Bool)) (deps : ActivityDeps) (repo : InMemoryRepository)
      → out.start_fails ≡ start
      → Leaves (opening start out deps info inp (runs, repo))
  unfolding opening
  opening-Leaves none deps repo q = closing-Leaves out.end_fails _ refl
  opening-Leaves (some (e, true)) deps repo q = (inr (inl (true, q, begun_row)), begun-Elsewhere)
  opening-Leaves (some (e, false)) deps repo q = (inr (inl (false, q, new)), λ id n. refl)

-- Let no run have the id of a run that begins, and let any activity answer or fail for good. When the run
-- returns a result, the row under its id has the ids, the plant and the times of the run, and the status,
-- the results, the counts and the errors of that result; the status is "completed" where there is no error,
-- and else "failed". When the run fails instead, its first activity failed and there is no row; or the
-- report at the start failed and there is none, or a running one if the report had been written; or the
-- report at the end failed and the row is still the running one, or that of a result if it had been written.
-- Every other row is as it was.
pub run_reports :
    (out : Outside) (deps : ActivityDeps) (info : RunInfo) (inp : OnboardingInput) (runs : Runs)
    (repo : InMemoryRepository)
    → get_run info.run_id runs ≡ none
    → let outcome = run out deps info inp (runs, repo) in
      IsReported out info inp outcome.0 (get_run info.run_id outcome.1.0)
      × ((id : String) → info.run_id ≢ id → get_run id outcome.1.0 ≡ get_run id runs)
unfolding run get_run
run_reports out deps info inp runs repo new = elim (Option-cases out.resolve_fails) [
  | inl n ↦ simp (n, run) (opening-Leaves out info inp runs new out.start_fails deps repo refl)
  | inr (e, q) ↦ simp (q, run) (inl (refl, new), λ id n. refl)
]
