-- ===== src/Agents/Analysis/Whys.antt =====
-- packages/agents/src/rca_agents/rca_graph.py, `_run_five_whys`: the chain that the loop makes.
use industrial_rca.Agents.Contracts.{Raising, returned, raised, ◌>>=◌}
use industrial_rca.Agents.Analysis.{LegContext, WhyReply, WhyStep, Model}
use industrial_rca.Agents.Analysis.Words.{answer_sources, one_of-mem, agent_inference-mem}
use industrial_rca.Agents.Analysis.Conclusion.{min_five_whys}
use industrial_rca.Agents.Analysis.Nodes.{
  max_five_whys_depth, Whys, asks, done, step_of, after_why, whys_loop,
}
use industrial_rca.Prelude.{
  ℕ, zero, suc, ◌+◌, ◌≤◌, ◌<◌, ◌≡◌, refl, true, ◌&&◌, leb, List, [], ◌∷◌, ◌++◌, length,
  length-append, mem_text, All, All-append, arith, Bool-cases, inl, inr,
}

-- The ranks count from a number on.
abbrev pub IsRanked : ℕ → List WhyStep → Type 0
IsRanked n [] = Unit
IsRanked n (s ∷ steps) = (s.rank ≡ n) × IsRanked (suc n) steps

abbrev pub IsSourced : WhyStep → Type 0
IsSourced s = mem_text s.answer_source answer_sources ≡ true

pub record IsChain (steps : List WhyStep) : Type 0 where
  pub short : length steps ≤ max_five_whys_depth
  pub ranked : IsRanked 1 steps
  pub sourced : All IsSourced steps

ranked_add :
    (n : ℕ) (steps : List WhyStep) (s : WhyStep)
    → IsRanked n steps
    → s.rank ≡ n + length steps
    → IsRanked n (steps ++ (s ∷ []))
ranked_add n [] s r e = (omega (arith, e), tt)
ranked_add n (t ∷ steps) s r e = (r.0, ranked_add (suc n) steps s r.1 (omega (arith, e)))

pub chain_add :
    (steps : List WhyStep) (s : WhyStep)
    → IsChain steps
    → length steps < max_five_whys_depth
    → s.rank ≡ length steps + 1
    → IsSourced s
    → IsChain (steps ++ (s ∷ []))
chain_add steps s c l e m = record {
  short = omega (arith, length-append steps (s ∷ []), l);
  ranked = ranked_add 1 steps s c.ranked (omega (arith, e));
  sourced = All-append IsSourced steps (s ∷ []) c.sourced (m, tt);
}

-- How the loop ends.
pub data Ends (steps : List WhyStep) : Raising Whys → Type 0 where
  fails : (e : _) → Ends steps (raised e)
  asking :
      (s : WhyReply) (out : List WhyStep)
      → IsChain out
      → 1 ≤ length out
      → length out < max_five_whys_depth
      → length steps ≤ length out
      → Ends steps (returned (asks s out))
  finished :
      (out : List WhyStep)
      → IsChain out
      → min_five_whys ≤ length out
      → length steps ≤ length out
      → (length steps < max_five_whys_depth → length steps < length out)
      → Ends steps (returned (done out))

later :
    (steps more : List WhyStep) {w : Raising Whys}
    → length steps < length more
    → Ends more w
    → Ends steps w
later steps more l (fails e) = fails e
later steps more l (asking s out c a b d) = asking s out c a b (omega (arith, l, d))
later steps more l (finished out c a b d) =
    finished out c a (omega (arith, l, b)) (λ h. omega (arith, l, b))

module _ (ctx : LegContext) (m : Model) where
  round :
      (left : ℕ) (steps : List WhyStep) (s : WhyReply)
      → suc left + length steps ≡ max_five_whys_depth
      → IsChain steps
      → (IsChain (steps ++ (step_of ctx s steps ∷ []))
          → Ends
              (steps ++ (step_of ctx s steps ∷ []))
              (whys_loop ctx m left (steps ++ (step_of ctx s steps ∷ []))))
      → Ends steps (after_why ctx steps (λ more. whys_loop ctx m left more) s)
  unfolding after_why
  round left steps s l c k =
      let more = steps ++ (step_of ctx s steps ∷ []) in
      let grown : length more ≡ length steps + 1 = length-append steps (step_of ctx s steps ∷ []) in
      let chain : IsChain more =
        chain_add steps (step_of ctx s steps) c (omega (arith, l)) refl
          (one_of-mem ctx s.answer_source answer_sources "agent_inference" agent_inference-mem) in
      elim (Bool-cases (s.needs_human_knowledge && leb 1 (length steps))) [
        | inl y ↦
            rw (y, after_why) (asking s steps c (ground arith) (omega (arith, l)) (omega arith))
        | inr n ↦ elim (Bool-cases (s.is_root_cause && leb min_five_whys (length more))) [
          | inl y ↦
              rw (n, y, after_why)
                (finished more chain (ground arith) (omega (arith, grown))
                  (λ h. omega (arith, grown)))
          | inr z ↦ rw (n, z, after_why) (later steps more (omega (arith, grown)) (k chain))
        ]
      ]

  -- The loop over the rounds that are left makes a chain.
  pub whys_loop-Ends :
      (left : ℕ) (steps : List WhyStep)
      → left + length steps ≡ max_five_whys_depth
      → IsChain steps
      → Ends steps (whys_loop ctx m left steps)
  unfolding whys_loop
  whys_loop-Ends zero steps l c =
      finished steps c (omega (arith, l)) (omega arith) (λ h. absurd (omega (arith, l, h)))
  whys_loop-Ends (suc left) steps l c = answered (m.five_whys_step steps) (λ s.
      round left steps s l c (λ chain.
        whys_loop-Ends left (steps ++ (step_of ctx s steps ∷ []))
          (omega (arith, l, length-append steps (step_of ctx s steps ∷ []))) chain))
    where
      answered :
          (r : Raising WhyReply)
          → ((s : WhyReply)
              → Ends steps (after_why ctx steps (λ more. whys_loop ctx m left more) s))
          → Ends steps (r >>= λ s. after_why ctx steps (λ more. whys_loop ctx m left more) s)
      answered (raised e) k = fails e
      answered (returned s) k = k s
