-- ===== src/Agents/Analysis/Legs.antt =====
-- packages/agents/src/rca_agents/rca_graph.py, `RcaAgent.run_leg`: one leg of the analysis, from an
-- answer of the engineer (or none) to a question, a proposal or the end. The messages are left out.
use industrial_rca.Agents.Contracts.{
  Raising, returned, ◌>>=◌, TokenUsage, no_usage, merged_with, HitlResponse,
}
use industrial_rca.Agents.Analysis.{
  LegContext, EvidencePackage, RawCategory, RankReply, Model, a_review, RcaState, proposes,
  AgentLegResult,
}
use industrial_rca.Agents.Analysis.Conclusion.{build_conclusion, validate, valid_codes}
use industrial_rca.Prelude.{String, Option, none, some, List, [], ◌∷◌, ◌++◌}
use industrial_rca.Agents.Analysis.Answers.{Resumed, apply_hitl, ends, goes_on}
use industrial_rca.Agents.Analysis.Nodes.{Paused, detect_gaps, merge, run_five_whys}

-- The proposal of what the model ranked.
unfoldable pub proposal :
    LegContext
    → EvidencePackage
    → List RawCategory
    → RcaState
    → TokenUsage
    → List String
    → RankReply
    → AgentLegResult
unfolding build_conclusion validate
proposal ctx pkg raw st usage ids r =
    let conclusion =
      validate (build_conclusion ctx pkg st.regen_count raw st.five_whys r)
        (valid_codes pkg.applicable_failure_modes) in
    record {
      leg = proposes conclusion;
      graph_state = record st { conclusion = some conclusion; awaiting = some a_review };
      token_usage_delta = merged_with usage r.usage;
      new_llm_call_ids = ids ++ (r.llm_call_id ∷ []);
    }

unfoldable pub rank_validate_propose :
    LegContext
    → Model
    → EvidencePackage
    → List RawCategory
    → RcaState
    → TokenUsage
    → List String
    → Raising AgentLegResult
unfolding proposal
rank_validate_propose ctx m pkg raw st usage ids =
    m.rank_hypotheses raw st.five_whys >>= λ r. returned (proposal ctx pkg raw st usage ids r)

-- A pause ends the leg; else the hypotheses are ranked.
unfoldable pub paused_or_proposed :
    LegContext
    → Model
    → EvidencePackage
    → List RawCategory
    → TokenUsage
    → List String
    → Option Paused × RcaState
    → Raising AgentLegResult
unfolding rank_validate_propose
paused_or_proposed ctx m pkg raw usage ids (some p, after) = returned (merge p usage ids)
paused_or_proposed ctx m pkg raw usage ids (none, after) =
    rank_validate_propose ctx m pkg raw after usage ids

-- After the fishbone and its gaps.
unfoldable pub whys_and_proposal :
    LegContext
    → Model
    → EvidencePackage
    → List RawCategory
    → RcaState
    → TokenUsage
    → List String
    → Raising AgentLegResult
unfolding run_five_whys paused_or_proposed
whys_and_proposal ctx m pkg raw st usage ids =
    run_five_whys ctx m st >>= λ fw. paused_or_proposed ctx m pkg raw usage ids fw

unfoldable pub after_gaps :
    LegContext
    → Model
    → EvidencePackage
    → List RawCategory
    → TokenUsage
    → List String
    → Option Paused × RcaState
    → Raising AgentLegResult
unfolding whys_and_proposal
after_gaps ctx m pkg raw usage ids (some p, after) = returned (merge p usage ids)
after_gaps ctx m pkg raw usage ids (none, after) = whys_and_proposal ctx m pkg raw after usage ids

-- The leg once the answer is applied.
unfoldable pub go_on : LegContext → Model → EvidencePackage → RcaState → Raising AgentLegResult
unfolding detect_gaps whys_and_proposal after_gaps
go_on ctx m pkg st = elim st.fishbone [
  | some raw ↦ whys_and_proposal ctx m pkg raw st no_usage []
  | none ↦ m.build_fishbone >>= λ f.
      detect_gaps ctx m f.fishbone (record st { fishbone = some f.fishbone }) >>= λ gaps.
      after_gaps ctx m pkg f.fishbone (merged_with no_usage f.usage) (f.llm_call_id ∷ []) gaps
]

unfoldable pub resume : LegContext → Model → EvidencePackage → Resumed → Raising AgentLegResult
unfolding go_on
resume ctx m pkg (goes_on st) = go_on ctx m pkg st
resume ctx m pkg (ends leg st) =
    returned
      (record { leg = leg; graph_state = st; token_usage_delta = no_usage; new_llm_call_ids = [] })

unfoldable pub run_leg :
    LegContext → Model → EvidencePackage → RcaState → Option HitlResponse → Raising AgentLegResult
unfolding apply_hitl resume
run_leg ctx m pkg st none = go_on ctx m pkg st
run_leg ctx m pkg st (some hitl) = apply_hitl st hitl >>= λ r. resume ctx m pkg r
