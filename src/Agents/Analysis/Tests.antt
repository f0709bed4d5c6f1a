-- ===== src/Agents/Analysis/Tests.antt =====
-- The theorems of the analysis at concrete inputs.
use industrial_rca.Prelude.{
  ℕ, ◌<◌, String, Bool, true, false, ◌≡◌, ◌⊎◌, ◌↔◌, refl, Option, none, some, List, [], ◌∷◌, length,
  mem_text, arith,
}
use industrial_rca.Agents.Contracts.{Raising, returned, TokenUsage, no_usage, HitlResponse}
use industrial_rca.Agents.Analysis.{
  LegContext, EvidencePackage, WhyReply, RawHypothesis, RankReply, WhyStep, Model, a_review,
  RcaState, proposes, RcaConclusion, AgentLegResult,
}
use industrial_rca.Agents.Analysis.Words.{answer_sources}
use industrial_rca.Agents.Analysis.Conclusion.{
  build_conclusion, validate, valid_mechanisms, validation_errors,
}
use industrial_rca.Agents.Analysis.Legs.{run_leg, go_on}
use industrial_rca.Agents.Analysis.Whys.{IsChain}
use industrial_rca.Agents.Analysis.Bound.{analysis_ends, analysis_sound}
use industrial_rca.Agents.Analysis.Waiting.{rca_leg, seed, IsSound, IsWaiting}
use industrial_rca.Agents.Analysis.Vocabulary.{IsTyped, build_conclusion-IsTyped}
use industrial_rca.Agents.Analysis.Validation.{IsClean, validation_errors_iff}
use industrial_rca.Agents.Analysis.Regeneration.{regenerated_deeper, proposal_reports}
use industrial_rca.Agents.Analysis.Duplicates.{duplicate_rejection, rejected_by}
use industrial_rca.Agents.Bridge.Signals.{answers_of}
use industrial_rca.Agents.Bridge.{after_leg, Run, finished, stopped, run_agent}

abbrev pub context : LegContext
context = record {
  reference_time = 100;
  det_uuid = λ parts. "id";
  strip = λ t. t;
  lower = λ t. t;
  str = λ n. "n";
}

abbrev evidence : EvidencePackage
evidence = record {
  evidence_package_id = "e-1";
  canonical_id = "asset:gc:u1:p-101";
  asset_name = "P-101";
  anomalies = "seal leak" ∷ [];
  applicable_failure_modes = ("ELP", "mech-1" ∷ []) ∷ [];
}

abbrev spent : TokenUsage
spent = record { input_tokens = 10; output_tokens = 5 }

abbrev why : WhyReply
why = record {
  needs_human_knowledge = false;
  why_question = some "why?";
  answer = some "wear";
  answer_source = some "kg";
  supporting_evidence = [];
  is_root_cause = true;
  usage = spent;
  llm_call_id = "call";
}

abbrev hypothesis : RawHypothesis
hypothesis = record {
  iso14224_failure_mode = some "ELP";
  iso14224_mechanism = some "other thing";
  iso14224_cause = none;
  confidence = some 9000;
  narrative = none;
  supporting_evidence = [];
}

abbrev ranked : RankReply
ranked = record {
  primary_hypothesis = hypothesis;
  alternative_hypotheses = [];
  recommended_actions = [];
  open_data_requests = [];
  usage = spent;
  llm_call_id = "rank";
}

abbrev pub model : Model
model = record {
  build_fishbone = returned (record { fishbone = []; usage = spent; llm_call_id = "fish" });
  detect_evidence_gaps = λ raw.
      returned (record { needs_hitl = false; questions = []; usage = spent; llm_call_id = "gaps" });
  five_whys_step = λ steps. returned why;
  rank_hypotheses = λ raw steps. returned ranked;
}

abbrev pub answer_of : Bool → HitlResponse
answer_of approved = record {
  answers = [];
  approved = approved;
  plan_edits = [];
  conclusion_edits = [];
  actions_approved = none;
  engineer_notes = none;
  responded_at = 200;
}

abbrev pub approvals : List (Option HitlResponse)
approvals =
    some (answer_of true)
    ∷ some (answer_of true)
    ∷ some (answer_of true)
    ∷ some (answer_of true)
    ∷ some (answer_of true)
    ∷ some (answer_of true)
    ∷ some (answer_of true)
    ∷ some (answer_of true)
    ∷ some (answer_of true)
    ∷ some (answer_of true)
    ∷ []

abbrev analysis : Run RcaState (RcaConclusion × Bool)
analysis = run_agent (rca_leg context evidence (λ n used. model)) approvals no_usage seed

analysis_ends_example :
    ((o : RcaConclusion × Bool) × (total : TokenUsage) × (analysis ≡ finished o total))
    ⊎ ((e : String) × (at : TokenUsage) × (analysis ≡ stopped e at))
analysis_ends_example =
    analysis_ends context evidence (λ n used. model) approvals no_usage (omega arith)

abbrev step_at : ℕ → WhyStep
step_at n = record {
  rank = n;
  why_question = "why?";
  answer = "wear";
  answer_source = "kg";
  supporting_evidence = [];
}

sourced_step : mem_text "kg" answer_sources ≡ true
unfolding mem_text
sourced_step = refl

abbrev chain : List WhyStep
chain = step_at 1 ∷ step_at 2 ∷ step_at 3 ∷ []

-- The conclusion that the engineer approved.
abbrev first_conclusion : RcaConclusion
first_conclusion = build_conclusion context evidence 0 [] chain ranked

build_conclusion-IsTyped_example :
    IsTyped (valid_mechanisms evidence.applicable_failure_modes) first_conclusion
build_conclusion-IsTyped_example =
    build_conclusion-IsTyped context evidence 0 [] chain ranked
      (sourced_step, (sourced_step, (sourced_step, tt)))

validation_errors_iff_example :
    (validation_errors first_conclusion ("ELP" ∷ []) ≡ []) ↔ IsClean ("ELP" ∷ []) first_conclusion
validation_errors_iff_example = validation_errors_iff first_conclusion ("ELP" ∷ [])

abbrev reviewed : RcaState
reviewed = record {
  awaiting = some a_review;
  fishbone = some [];
  gaps_checked = true;
  gap_answers = [];
  five_whys = chain;
  pending_why = none;
  conclusion = some first_conclusion;
  regen_count = 0;
}

chain-IsChain : IsChain chain
chain-IsChain = record {
  short = omega arith;
  ranked = (refl, (refl, (refl, tt)));
  sourced = (sourced_step, (sourced_step, (sourced_step, tt)));
}

reviewed-IsWaiting : IsWaiting reviewed
unfolding build_conclusion
reviewed-IsWaiting = record {
  chain = chain-IsChain;
  few = omega arith;
  why_due = λ e. absurd (let b : ⊥ = cc in b);
  built = ([], refl);
  due = (a_review, refl);
  reviewed = λ e. (
    first_conclusion,
    refl,
    record { steps = chain; steps_of = refl; chain = chain-IsChain; deep = omega arith },
  );
}

abbrev again : RcaState
again = record reviewed { awaiting = none; conclusion = none; regen_count = 1 }

-- What the model proposes after a rejection: a fourth why.
abbrev second_conclusion : RcaConclusion
second_conclusion =
    validate
      (build_conclusion context evidence 1 [] (step_at 1 ∷ step_at 2 ∷ step_at 3 ∷ step_at 4 ∷ [])
        ranked)
      ("ELP" ∷ [])

abbrev second_leg : AgentLegResult
second_leg = record {
  leg = proposes second_conclusion;
  graph_state = record again {
    five_whys = step_at 1 ∷ step_at 2 ∷ step_at 3 ∷ step_at 4 ∷ [];
    conclusion = some second_conclusion;
    awaiting = some a_review;
  };
  token_usage_delta = spent;
  new_llm_call_ids = "rank" ∷ [];
}

second_run : run_leg context model evidence reviewed (some (answer_of false)) ≡ returned second_leg
unfolding run_leg
second_run = refl

again_run : go_on context model evidence again ≡ returned second_leg
unfolding go_on
again_run = refl

regenerated_deeper_example : 3 < length second_conclusion.five_whys.steps
regenerated_deeper_example =
    regenerated_deeper context model evidence reviewed (answer_of false) second_leg
      second_conclusion reviewed-IsWaiting refl refl refl (omega arith) second_run refl

proposal_reports_example :
    (k : RankReply) × (◌≡◌ {A = Raising RankReply} (returned ranked) (returned k))
    × (spent ≡ k.usage)
    × (second_leg.new_llm_call_ids ≡ k.llm_call_id ∷ [])
proposal_reports_example =
    proposal_reports context model evidence again [] second_leg second_conclusion refl again_run
      refl

duplicate_rejection_example :
    (total : TokenUsage) × (after_leg
        (rca_leg context evidence (λ n used. model))
        (some (answer_of false) ∷ some (answer_of false) ∷ [])
        0
        no_usage
        (returned
          (record { graph_state = reviewed; final_output = none; token_usage_delta = spent }))
      ≡ finished (rejected_by (answer_of false) second_conclusion, false) total)
unfolding answers_of
duplicate_rejection_example =
    duplicate_rejection context evidence (λ n used. model) reviewed (answer_of false) spent no_usage
      0 second_leg second_conclusion none [] reviewed-IsWaiting refl refl refl second_run refl

abbrev approved_conclusion : RcaConclusion
approved_conclusion = record (validate first_conclusion ("ELP" ∷ [])) {
  engineer_approval_status = some "approved";
  finalized_at = some 200;
}

analysis_run :
    analysis
    ≡ finished (approved_conclusion, true) (record { input_tokens = 20; output_tokens = 10 })
unfolding run_agent run_leg
analysis_run = refl

analysis_sound_example : IsSound approved_conclusion
analysis_sound_example =
    analysis_sound context evidence (λ n used. model) approvals no_usage (approved_conclusion, true)
      (record { input_tokens = 20; output_tokens = 10 }) analysis_run
