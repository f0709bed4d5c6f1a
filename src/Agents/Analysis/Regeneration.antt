-- ===== src/Agents/Analysis/Regeneration.antt =====
-- packages/agents/src/rca_agents/rca_graph.py: the conclusion that is made again after a rejection, and
-- the tokens that a proposal reports.
use industrial_rca.Agents.Contracts.{Raising, returned, raised, ◌>>=◌, HitlResponse, no_usage}
use industrial_rca.Agents.Analysis.{
  LegContext, EvidencePackage, RawCategory, RankReply, WhyStep, Model, a_review, RcaState, proposes,
  RcaConclusion, AgentLegResult,
}
use industrial_rca.Agents.Analysis.Conclusion.{fw_step}
use industrial_rca.Agents.Analysis.Legs.{
  resume, run_leg, go_on, rank_validate_propose, proposal, paused_or_proposed, whys_and_proposal,
}
use industrial_rca.Agents.Analysis.Nodes.{
  max_five_whys_depth, Whys, asks, done, whys_loop, whys_outcome, run_five_whys,
}
use industrial_rca.Agents.Analysis.Answers.{apply_answer, apply_hitl, finalize_or_regen}
use industrial_rca.Agents.Analysis.Steps.{
  LegEnds, leg_fails, gaps_asked, why_asked, proposed, go_on-LegEnds,
}
use industrial_rca.Agents.Analysis.Waiting.{IsWaiting}
use industrial_rca.Prelude.{
  ℕ, suc, ◌<◌, ◌≡◌, refl, sym, ap, ◌∙◌, false, Option, none, some, List, [], ◌∷◌, map, length,
  arith, ◌-◌, subst,
}

length-map {ℓ κ} :
    {A : Type ℓ} {B : Type κ} (f : A → B) (xs : List A) → length (map f xs) ≡ length xs
length-map f [] = refl
length-map f (x ∷ xs) = ap suc (length-map f xs)

-- A proposal from a chain that is not full has a longer chain.
deeper :
    {fishbone : Option (List RawCategory)} {steps : List WhyStep} {regens : ℕ}
    {m : Raising AgentLegResult} (r : AgentLegResult) (c : RcaConclusion)
    → LegEnds fishbone steps regens m
    → m ≡ returned r
    → r.leg ≡ proposes c
    → length steps < max_five_whys_depth
    → length steps < length c.five_whys.steps
deeper r c (leg_fails e) h l s = absurd (let x : ⊥ = cc in x)
deeper r c (gaps_asked t q k f a b) h l s = absurd (let x : ⊥ = cc in x)
deeper r c (why_asked t q k a b d) h l s = absurd (let x : ⊥ = cc in x)
deeper r c (proposed t d k a b o steps_of n g) h l s =
    let same : d ≡ c = cc in
    omega (
      arith,
      g s,
      ap (λ (x : RcaConclusion). length x.five_whys.steps) same,
      ap length steps_of,
      length-map fw_step t.graph_state.five_whys,
    )

-- The state after a rejection.
abbrev pub again : RcaState → RcaState
again st = record st { awaiting = none; regen_count = suc st.regen_count; conclusion = none }

pub rejection_goes_on :
    (ctx : LegContext) (m : Model) (pkg : EvidencePackage) (st : RcaState) (hitl : HitlResponse)
    → IsWaiting st
    → st.awaiting ≡ some a_review
    → st.regen_count ≡ 0
    → hitl.approved ≡ false
    → run_leg ctx m pkg st (some hitl)
      ≡ go_on ctx m pkg
          (record st { awaiting = none; regen_count = suc st.regen_count; conclusion = none })
unfolding run_leg apply_hitl apply_answer finalize_or_regen resume
rejection_goes_on ctx m pkg st hitl w a z n =
    let (old, o, sound) = w.reviewed a in rw (a, o, n, z) refl

-- When the first review rejects a conclusion whose chain has fewer than seven steps, a conclusion that
-- the next leg proposes has a longer chain.
pub regenerated_deeper :
    (ctx : LegContext) (m : Model) (pkg : EvidencePackage) (st : RcaState) (hitl : HitlResponse)
    (r : AgentLegResult) (c : RcaConclusion)
    → IsWaiting st
    → st.awaiting ≡ some a_review
    → st.regen_count ≡ 0
    → hitl.approved ≡ false
    → length st.five_whys < max_five_whys_depth
    → run_leg ctx m pkg st (some hitl) ≡ returned r
    → r.leg ≡ proposes c
    → length st.five_whys < length c.five_whys.steps
regenerated_deeper ctx m pkg st hitl r c w a z n s h l =
    deeper r c (go_on-LegEnds ctx m pkg (again st) w.chain)
      (sym (rejection_goes_on ctx m pkg st hitl w a z n) ∙ h) l s

module _ (ctx : LegContext) (m : Model) (pkg : EvidencePackage) (raw : List RawCategory) where
  built_goes_on :
      (st : RcaState)
      → st.fishbone ≡ some raw
      → go_on ctx m pkg st ≡ whys_and_proposal ctx m pkg raw st no_usage []
  unfolding go_on
  built_goes_on st f = simp (f, go_on)

  -- What a leg that ends with a proposal reports.
  abbrev Reports : AgentLegResult → Type 0
  Reports r =
      (k : RankReply) × (m.rank_hypotheses raw r.graph_state.five_whys ≡ returned k)
      × (r.token_usage_delta ≡ k.usage)
      × (r.new_llm_call_ids ≡ k.llm_call_id ∷ [])

  reports :
      (st : RcaState) (r : AgentLegResult) (c : RcaConclusion) (w : Raising Whys)
      → ((w >>= λ x. returned (whys_outcome ctx st x)) >>= λ fw.
          paused_or_proposed ctx m pkg raw no_usage [] fw)
        ≡ returned r
      → r.leg ≡ proposes c
      → Reports r
  unfolding whys_outcome paused_or_proposed rank_validate_propose proposal
  reports st r c (raised x) e l = absurd (let b : ⊥ = cc in b)
  reports st r c (returned (asks s steps)) e l = absurd (let b : ⊥ = cc in b)
  reports st r c (returned (done steps)) e l = ranked (m.rank_hypotheses raw steps) refl e
    where
      ranked :
          (k : Raising RankReply)
          → m.rank_hypotheses raw steps ≡ k
          → (k >>= λ q.
              returned (proposal ctx pkg raw (record st { five_whys = steps }) no_usage [] q))
            ≡ returned r
          → Reports r
      ranked (raised x) h g = absurd (let b : ⊥ = cc in b)
      ranked (returned k) h g =
          let same : proposal ctx pkg raw (record st { five_whys = steps }) no_usage [] k ≡ r =
            cc in
          subst Reports same (k, h, ground arith, refl)

-- A leg that goes on from a fishbone and proposes a conclusion reports the tokens and the id of the
-- ranking call alone, however often it asked the model why.
pub proposal_reports :
    (ctx : LegContext) (m : Model) (pkg : EvidencePackage) (st : RcaState) (raw : List RawCategory)
    (r : AgentLegResult) (c : RcaConclusion)
    → st.fishbone ≡ some raw
    → go_on ctx m pkg st ≡ returned r
    → r.leg ≡ proposes c
    → (k : RankReply) × (m.rank_hypotheses raw r.graph_state.five_whys ≡ returned k)
      × (r.token_usage_delta ≡ k.usage)
      × (r.new_llm_call_ids ≡ k.llm_call_id ∷ [])
unfolding whys_and_proposal run_five_whys
proposal_reports ctx m pkg st raw r c f h l =
    reports ctx m pkg raw st r c
      (whys_loop ctx m (max_five_whys_depth - length st.five_whys) st.five_whys)
      (sym (built_goes_on ctx m pkg raw st f) ∙ h) l
