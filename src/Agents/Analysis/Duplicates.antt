-- ===== src/Agents/Analysis/Duplicates.antt =====
-- packages/agents/src/rca_agents: a response that is sent twice, in an analysis.
use industrial_rca.Agents.Contracts.{Raising, returned, no_usage, HitlResponse}
use industrial_rca.Agents.Analysis.{
  LegContext, EvidencePackage, Model, a_review, RcaState, proposes, gives_up, RcaConclusion,
  AgentLegResult, ℕ, TokenUsage, List, Option, RawCategory, WhyStep,
}
use industrial_rca.Agents.Analysis.Legs.{resume, run_leg}
use industrial_rca.Agents.Analysis.Answers.{apply_answer, apply_hitl, finalize_or_regen}
use industrial_rca.Agents.Analysis.Steps.{
  LegEnds, leg_fails, gaps_asked, why_asked, proposed, go_on-LegEnds,
}
use industrial_rca.Agents.Bridge.{after_leg, after_leg-final, finished}
use industrial_rca.Agents.Bridge.Signals.{Wait, answers_of}
use industrial_rca.Agents.Analysis.Bound.{adapted}
use industrial_rca.Agents.Analysis.Waiting.{rca_leg, output_of, IsWaiting}
use industrial_rca.Agents.Analysis.Regeneration.{rejection_goes_on, again}
use industrial_rca.Agents.Contracts.{merged_with, TokenUsage}
use industrial_rca.Prelude.{suc, ◌≡◌, refl, ap, ◌∙◌, false, none, some, [], subst, ◌∷◌, sym}

-- The conclusion as the engineer's rejection leaves it.
abbrev pub rejected_by : HitlResponse → RcaConclusion → RcaConclusion
rejected_by hitl c = record c {
  engineer_approval_status = some "rejected";
  finalized_at = some hitl.responded_at;
  engineer_notes = hitl.engineer_notes;
}

-- What a proposal leaves after the first rejection.
record Second (r : AgentLegResult) (c : RcaConclusion) : Type 0 where
  asked : r.graph_state.awaiting ≡ some a_review
  held : r.graph_state.conclusion ≡ some c
  counted : r.graph_state.regen_count ≡ 1

proposed-Second :
    {fishbone : Option (List RawCategory)} {steps : List WhyStep} {regens : ℕ}
    {m : Raising AgentLegResult} (r : AgentLegResult) (c : RcaConclusion)
    → LegEnds fishbone steps regens m
    → regens ≡ 1
    → m ≡ returned r
    → r.leg ≡ proposes c
    → Second r c
proposed-Second r c (leg_fails e) one h l = absurd (let x : ⊥ = cc in x)
proposed-Second r c (gaps_asked t q k f a b) one h l = absurd (let x : ⊥ = cc in x)
proposed-Second r c (why_asked t q k a b d) one h l = absurd (let x : ⊥ = cc in x)
proposed-Second r c (proposed t d k a b o s n g) one h l =
    let same : t ≡ r = cc in
    subst (λ x. Second x c) same
      (record {
        asked = b;
        held = o ∙ ap some (let e : d ≡ c = cc in e);
        counted = k.same_regens ∙ one;
      })

-- The second rejection ends the analysis.
given_up :
    (ctx : LegContext) (m : Model) (pkg : EvidencePackage) (hitl : HitlResponse)
    (r : AgentLegResult) (c : RcaConclusion)
    → hitl.approved ≡ false
    → Second r c
    → (last : AgentLegResult) × (run_leg ctx m pkg r.graph_state (some hitl) ≡ returned last)
      × (last.leg ≡ gives_up (rejected_by hitl c))
unfolding run_leg apply_hitl apply_answer finalize_or_regen resume
given_up ctx m pkg hitl r c n s = (
  record {
    leg = gives_up (rejected_by hitl c);
    graph_state = record r.graph_state {
      awaiting = none;
      regen_count = suc r.graph_state.regen_count;
    };
    token_usage_delta = no_usage;
    new_llm_call_ids = [];
  },
  simp (s.asked, s.held, s.counted, n, apply_hitl, apply_answer, finalize_or_regen),
  refl,
)

module _ (ctx : LegContext) (pkg : EvidencePackage) (model : ℕ → TokenUsage → Model) where
  -- The leg that takes the second answer.
  last_leg :
      (answers : List (Option HitlResponse)) (n : ℕ) (used : TokenUsage) (hitl : HitlResponse)
      (r : AgentLegResult) (c : RcaConclusion)
      → hitl.approved ≡ false
      → Second r c
      → (total : TokenUsage) × (after_leg
            (rca_leg ctx pkg model)
            answers
            n
            used
            (rca_leg ctx pkg model n used (some hitl) r.graph_state)
          ≡ finished (rejected_by hitl c, false) total)
  last_leg answers n used hitl r c a s =
      let (last, e, l) = given_up ctx (model n used) pkg hitl r c a s in
      (
        merged_with used last.token_usage_delta,
        rw (e) (
            after_leg-final (rca_leg ctx pkg model) answers n used
              (record {
                graph_state = last.graph_state;
                final_output = output_of last.leg;
                token_usage_delta = last.token_usage_delta;
              })
              (rejected_by hitl c, false) (ap output_of l)),
      )

  -- An engineer who rejects the first conclusion, and whose rejection arrives once more while the next
  -- leg runs, rejects the conclusion that this leg proposes: the analysis ends with it, marked as
  -- rejected, whatever would have ended the wait and whatever comes later.
  pub duplicate_rejection :
      (st : RcaState) (hitl : HitlResponse) (delta used : TokenUsage) (n : ℕ) (r : AgentLegResult)
      (c : RcaConclusion) (wake : Option HitlResponse) (rest : List Wait)
      → IsWaiting st
      → st.awaiting ≡ some a_review
      → st.regen_count ≡ 0
      → hitl.approved ≡ false
      → run_leg ctx (model (suc n) (merged_with used delta)) pkg st (some hitl) ≡ returned r
      → r.leg ≡ proposes c
      → (total : TokenUsage) × (after_leg
            (rca_leg ctx pkg model)
            (answers_of none (
              record { signals = []; wake = some hitl }
              ∷ record { signals = hitl ∷ []; wake = wake }
              ∷ rest))
            n
            used
            (returned (record { graph_state = st; final_output = none; token_usage_delta = delta }))
          ≡ finished (rejected_by hitl c, false) total)
  unfolding after_leg answers_of
  duplicate_rejection st hitl delta used n r c wake rest w a z b h l =
      let next : Model = model (suc n) (merged_with used delta) in
      let s : Second r c =
        proposed-Second r c (go_on-LegEnds ctx next pkg (again st) w.chain) (ap suc z)
          (sym (rejection_goes_on ctx next pkg st hitl w a z b) ∙ h) l in
      let total : TokenUsage = merged_with used delta in
      subst
        (λ x.
          (t : TokenUsage) × (after_leg (rca_leg ctx pkg model) (some hitl ∷ answers_of none rest)
              (suc n) total (adapted ctx pkg model x)
            ≡ finished (rejected_by hitl c, false) t))
        (sym h)
        (rw (l) (
          last_leg (answers_of none rest) (suc (suc n)) (merged_with total r.token_usage_delta) hitl
            r c b s))
