-- ===== src/Agents/Analysis/Steps.antt =====
-- packages/agents/src/rca_agents/rca_graph.py: how a leg of the analysis ends.
use industrial_rca.Agents.Contracts.{
  Raising, returned, raised, ◌>>=◌, TokenUsage, HitlQuestion, merged_with, no_usage,
}
use industrial_rca.Agents.Analysis.{
  LegContext, EvidencePackage, RawCategory, RankReply, WhyStep, Model, evidence_gaps, a_why,
  a_review, RcaState, asks_gaps, asks_why, proposes, RcaConclusion, AgentLegResult, ℕ, Option,
  GapsReply, Bool, FishboneReply,
}
use industrial_rca.Agents.Analysis.Conclusion.{build_conclusion, validate, fw_step, min_five_whys}
use industrial_rca.Agents.Analysis.Legs.{
  rank_validate_propose, paused_or_proposed, whys_and_proposal, proposal, after_gaps, go_on,
}
use industrial_rca.Agents.Analysis.Nodes.{
  max_five_whys_depth, Whys, whys_outcome, run_five_whys, detect_gaps, gaps_outcome, gap_questions,
}
use industrial_rca.Agents.Analysis.Whys.{IsChain, Ends, fails, asking, finished, whys_loop-Ends}
use industrial_rca.Prelude.{
  ◌-◌, ◌≤◌, ◌<◌, String, ◌≡◌, refl, none, some, List, [], ◌∷◌, map, length, arith, Bool-cases, inl,
  true, inr, false, Option-cases,
}

-- What every leg that goes on from a chain leaves.
pub record Kept (steps : List WhyStep) (regens : ℕ) (r : AgentLegResult) : Type 0 where
  pub chain : IsChain r.graph_state.five_whys
  pub same_regens : r.graph_state.regen_count ≡ regens
  pub grown : length steps ≤ length r.graph_state.five_whys
  pub built : (raw : List RawCategory) × (r.graph_state.fishbone ≡ some raw)

pub data LegEnds (fishbone : Option (List RawCategory)) (steps : List WhyStep) (regens : ℕ)
    : Raising AgentLegResult → Type 0 where
  leg_fails : (e : String) → LegEnds fishbone steps regens (raised e)
  gaps_asked :
      (r : AgentLegResult) (questions : List HitlQuestion)
      → Kept steps regens r
      → fishbone ≡ none
      → r.leg ≡ asks_gaps questions
      → r.graph_state.awaiting ≡ some evidence_gaps
      → LegEnds fishbone steps regens (returned r)
  why_asked :
      (r : AgentLegResult) (question : HitlQuestion)
      → Kept steps regens r
      → r.leg ≡ asks_why question
      → r.graph_state.awaiting ≡ some a_why
      → length r.graph_state.five_whys < max_five_whys_depth
      → LegEnds fishbone steps regens (returned r)
  proposed :
      (r : AgentLegResult) (c : RcaConclusion)
      → Kept steps regens r
      → r.leg ≡ proposes c
      → r.graph_state.awaiting ≡ some a_review
      → r.graph_state.conclusion ≡ some c
      → c.five_whys.steps ≡ map fw_step r.graph_state.five_whys
      → min_five_whys ≤ length r.graph_state.five_whys
      → (length steps < max_five_whys_depth → length steps < length r.graph_state.five_whys)
      → LegEnds fishbone steps regens (returned r)

from_built :
    {fishbone : Option (List RawCategory)} {raw : List RawCategory} {steps : List WhyStep}
    {regens : ℕ} {r : Raising AgentLegResult}
    → LegEnds (some raw) steps regens r
    → LegEnds fishbone steps regens r
from_built (leg_fails e) = leg_fails e
from_built (gaps_asked r q k f l a) = absurd (let x : ⊥ = cc in x)
from_built (why_asked r q k l a b) = why_asked r q k l a b
from_built (proposed r c k l a o s h g) = proposed r c k l a o s h g

module _ (ctx : LegContext) (m : Model) (pkg : EvidencePackage) where
  after_loop :
      (raw : List RawCategory) (usage : TokenUsage) (ids : List String) (st : RcaState)
      (w : Raising Whys)
      → st.fishbone ≡ some raw
      → Ends st.five_whys w
      → LegEnds (some raw) st.five_whys st.regen_count (
          (w >>= λ x. returned (whys_outcome ctx st x)) >>= λ fw.
          paused_or_proposed ctx m pkg raw usage ids fw)
  unfolding whys_outcome paused_or_proposed rank_validate_propose proposal build_conclusion validate
  after_loop raw usage ids st w f (fails e) = leg_fails e
  after_loop raw usage ids st w f (asking s out c a b l) =
      why_asked _ _ (record { chain = c; same_regens = refl; grown = l; built = (raw, f) }) refl
        refl b
  after_loop raw usage ids st w f (finished out c h l g) = ranked (m.rank_hypotheses raw out)
    where
      ranked :
          (k : Raising RankReply)
          → LegEnds (some raw) st.five_whys st.regen_count (
              k >>= λ r.
              returned (proposal ctx pkg raw (record st { five_whys = out }) usage ids r))
      ranked (raised e) = leg_fails e
      ranked (returned r) =
          proposed _ _ (record { chain = c; same_regens = refl; grown = l; built = (raw, f) }) refl
            refl refl refl h g

  pub whys_and_proposal-LegEnds :
      (raw : List RawCategory) (usage : TokenUsage) (ids : List String) (st : RcaState)
      → st.fishbone ≡ some raw
      → IsChain st.five_whys
      → LegEnds
          (some raw)
          st.five_whys
          st.regen_count
          (whys_and_proposal ctx m pkg raw st usage ids)
  unfolding whys_and_proposal run_five_whys
  whys_and_proposal-LegEnds raw usage ids st f c = after_loop raw usage ids st _ f (
      whys_loop-Ends ctx m (max_five_whys_depth - length st.five_whys) st.five_whys
        (omega (arith, c.short)) c)

  -- The leg after the fishbone is built: the gaps are asked about, or the loop runs.
  gaps_outcome-LegEnds :
      (raw : List RawCategory) (usage : TokenUsage) (ids : List String) (st : RcaState)
      (r : GapsReply) (needs_hitl : Bool) (questions : List HitlQuestion)
      → st.fishbone ≡ some raw
      → IsChain st.five_whys
      → LegEnds none st.five_whys st.regen_count
          (after_gaps ctx m pkg raw usage ids (gaps_outcome st r needs_hitl questions))
  unfolding gaps_outcome after_gaps
  gaps_outcome-LegEnds raw usage ids st r true (q ∷ questions) f c =
      gaps_asked _ (q ∷ questions)
        (record { chain = c; same_regens = refl; grown = omega arith; built = (raw, f) }) refl refl
        refl
  gaps_outcome-LegEnds raw usage ids st r true [] f c =
      from_built (whys_and_proposal-LegEnds raw usage ids st f c)
  gaps_outcome-LegEnds raw usage ids st r false questions f c =
      from_built (whys_and_proposal-LegEnds raw usage ids st f c)

  detect_gaps-LegEnds :
      (raw : List RawCategory) (usage : TokenUsage) (ids : List String) (st : RcaState)
      → st.fishbone ≡ some raw
      → IsChain st.five_whys
      → LegEnds none st.five_whys st.regen_count
          (detect_gaps ctx m raw st >>= λ gaps. after_gaps ctx m pkg raw usage ids gaps)
  unfolding detect_gaps after_gaps
  detect_gaps-LegEnds raw usage ids st f c = elim (Bool-cases st.gaps_checked) [
    | inl y ↦ rw (y, detect_gaps) (from_built (whys_and_proposal-LegEnds raw usage ids st f c))
    | inr n ↦ rw (n, detect_gaps) (answered (m.detect_evidence_gaps raw))
  ]
    where
      answered :
          (r : Raising GapsReply)
          → LegEnds none st.five_whys st.regen_count (
              (r >>= λ g. returned (
                gaps_outcome
                  (record st { gaps_checked = true })
                  g
                  g.needs_hitl
                  (gap_questions ctx 0 g.questions)))
              >>= λ gaps. after_gaps ctx m pkg raw usage ids gaps)
      answered (raised e) = leg_fails e
      answered (returned g) =
          gaps_outcome-LegEnds raw usage ids (record st { gaps_checked = true }) g g.needs_hitl
            (gap_questions ctx 0 g.questions) f c

  -- A leg that goes on from a chain.
  pub go_on-LegEnds :
      (st : RcaState)
      → IsChain st.five_whys
      → LegEnds st.fishbone st.five_whys st.regen_count (go_on ctx m pkg st)
  unfolding go_on
  go_on-LegEnds st c = elim (Option-cases st.fishbone) [
    | inl e ↦ rw (e, go_on) (built (m.build_fishbone))
    | inr (raw, e) ↦ rw (e, go_on) (whys_and_proposal-LegEnds raw no_usage [] st e c)
  ]
    where
      built :
          (f : Raising FishboneReply)
          → LegEnds none st.five_whys st.regen_count (
              f >>= λ k.
              detect_gaps ctx m k.fishbone (record st { fishbone = some k.fishbone }) >>= λ gaps.
              after_gaps ctx m pkg k.fishbone
                (merged_with no_usage k.usage)
                (k.llm_call_id ∷ [])
                gaps)
      built (raised e) = leg_fails e
      built (returned k) =
          detect_gaps-LegEnds k.fishbone (merged_with no_usage k.usage) (k.llm_call_id ∷ [])
            (record st { fishbone = some k.fishbone }) refl c
