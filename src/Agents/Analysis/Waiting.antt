-- ===== src/Agents/Analysis/Waiting.antt =====
-- packages/agents/src/rca_agents/rca_graph.py, as an agent of the workflow: what its states wait for.
use industrial_rca.Agents.Contracts.{HitlResponse, or_else, returned, ◌>>=◌, TokenUsage}
use industrial_rca.Agents.Analysis.{
  LegContext, EvidencePackage, RawCategory, WhyStep, Model, Awaiting, evidence_gaps, a_why,
  a_review, RcaState, RcaLeg, approves, gives_up, RcaConclusion,
}
use industrial_rca.Agents.Analysis.Conclusion.{fw_step, min_five_whys}
use industrial_rca.Agents.Analysis.Legs.{run_leg}
use industrial_rca.Agents.Analysis.Nodes.{max_five_whys_depth}
use industrial_rca.Agents.Analysis.Whys.{IsChain}
use industrial_rca.Agents.Bridge.{Leg}
use industrial_rca.Prelude.{
  ℕ, ◌+◌, ◌-◌, ◌≤◌, ◌<◌, ◌≡◌, Bool, true, ◌⊎◌, false, Option, none, some, List, [], map, length,
}

-- The output of a leg that ends the analysis: the conclusion, and whether its actions are approved.
abbrev pub output_of : RcaLeg → Option (RcaConclusion × Bool)
output_of (approves c actions) = some (c, actions)
output_of (gives_up c) = some (c, false)
output_of _ = none

-- The analysis as an agent of the workflow; the model may answer otherwise in every leg.
abbrev pub rca_leg :
    LegContext → EvidencePackage → (ℕ → TokenUsage → Model) → Leg RcaState (RcaConclusion × Bool)
rca_leg ctx pkg model n used hitl st = run_leg ctx (model n used) pkg st hitl >>= λ r.
    returned (record {
      graph_state = r.graph_state;
      final_output = output_of r.leg;
      token_usage_delta = r.token_usage_delta;
    })

abbrev pub seed : RcaState
seed = record {
  awaiting = none;
  fishbone = none;
  gaps_checked = false;
  gap_answers = [];
  five_whys = [];
  pending_why = none;
  conclusion = none;
  regen_count = 0;
}

-- The steps of a conclusion are a chain of three steps or more.
pub record IsSound (c : RcaConclusion) : Type 0 where
  pub steps : List WhyStep
  pub steps_of : c.five_whys.steps ≡ map fw_step steps
  pub chain : IsChain steps
  pub deep : min_five_whys ≤ length steps

-- A state that waits for an answer.
pub record IsWaiting (st : RcaState) : Type 0 where
  pub chain : IsChain st.five_whys
  pub few : st.regen_count ≤ 1
  pub why_due : st.awaiting ≡ some a_why → length st.five_whys < max_five_whys_depth
  pub built : (raw : List RawCategory) × (st.fishbone ≡ some raw)
  pub due : (a : Awaiting) × (st.awaiting ≡ some a)
  pub reviewed :
      st.awaiting ≡ some a_review → (c : RcaConclusion) × (st.conclusion ≡ some c) × IsSound c

abbrev pub gaps_due : Option Awaiting → ℕ
gaps_due (some evidence_gaps) = 1
gaps_due _ = 0

-- The answers that may still be asked for, in a state that waits.
abbrev pub left : RcaState → ℕ
left st = gaps_due st.awaiting + (max_five_whys_depth - length st.five_whys) + (2 - st.regen_count)

-- What an analysis ends with, as an answer decides: the answer approves it, at its time and with its
-- notes, or it is marked as rejected.
pub record IsDecided (hitl : HitlResponse) (o : RcaConclusion × Bool) : Type 0 where
  pub sound : IsSound o.0
  pub decided :
      ((hitl.approved ≡ true)
        × (o.0.finalized_at ≡ some hitl.responded_at)
        × (o.0.engineer_notes ≡ hitl.engineer_notes)
        × (o.1 ≡ or_else hitl.actions_approved true))
      ⊎ (o.0.engineer_approval_status ≡ some "rejected")

-- The answer that the last leg was given; a leg without one does not end the analysis.
abbrev pub Decides : Option HitlResponse → RcaConclusion × Bool → Type 0
Decides none o = ⊥
Decides (some hitl) o = IsDecided hitl o
