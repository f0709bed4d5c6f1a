-- ===== src/Agents/Tests.antt =====
-- The theorems of the agents at concrete inputs.
use industrial_rca.Prelude.{
  ℕ, true, false, ◌≡◌, refl, none, some, List, [], ◌∷◌, ◌++◌, map, keep_if, All, mem_text, not,
  arith,
}
use industrial_rca.Agents.Contracts.{InvestigationPlan, HitlResponse, remove_step}
use industrial_rca.Agents.Planning.{
  DraftStep, StepIds, default_steps, coerce_steps, GraphState, planning_aborted, planning,
}
use industrial_rca.Agents.Planning.Baseline.{coerce_steps_cover}
use industrial_rca.Agents.Planning.Bound.{rejections_abort}

abbrev ids : StepIds
ids = record { drafted = λ v i. "drafted"; added = λ v j. "added" }

abbrev draft : List DraftStep
draft =
    record {
      step_type = "documents";
      description = none;
      parameters = none;
      rationale = none;
      estimated_cost = none;
    }
    ∷ []

coerce_steps_cover_example :
    let baseline = map (λ d. d.step_type) default_steps in
    let types = map (λ s. s.step_type) (coerce_steps ids 1 draft) in
    (types ≡ ("documents" ∷ []) ++ keep_if (λ t. not (mem_text t ("documents" ∷ []))) baseline)
    × All (λ t. mem_text t types ≡ true) baseline
coerce_steps_cover_example = coerce_steps_cover ids 1 draft

abbrev plan_of : ℕ → InvestigationPlan
plan_of version = record {
  version = version;
  asset_canonical_id = "refinery-gc:u1:p-101";
  candidate_failure_modes = [];
  steps = coerce_steps ids version draft;
  finalized_at = none;
  engineer_notes = none;
}

abbrev proposed : GraphState
proposed = record { plan = plan_of 1; plan_version = 1; replan_count = 0 }

abbrev refusal : HitlResponse
refusal = record {
  approved = false;
  answers = [];
  conclusion_edits = [];
  actions_approved = none;
  plan_edits = remove_step (some "added") ∷ [];
  engineer_notes = none;
  responded_at = 9;
}

abbrev refusals : List HitlResponse
refusals = refusal ∷ refusal ∷ refusal ∷ []

rejections_abort_example : (planning (λ t. t) plan_of refusals proposed).0 ≡ some planning_aborted
rejections_abort_example =
    rejections_abort (λ t. t) plan_of refusals proposed refl (refl, (refl, (refl, tt)))
      (omega arith)
