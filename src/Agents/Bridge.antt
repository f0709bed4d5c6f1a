-- ===== src/Agents/Bridge.antt =====
-- packages/agents/src/rca_agents/workflow.py, `_run_agent`: the legs of an agent, one answer of the
-- engineer after another. A leg may depend on its number and on the tokens used so far; `none` among
-- the answers is a wait that timed out.
pub mod Signals
use industrial_rca.Prelude.{
  ◌+◌, ◌<◌, ◌≡◌, refl, String, length, arith, ℕ, suc, Option, none, some, List, [], ◌∷◌, Any, inl,
  inr,
}
use industrial_rca.Agents.Contracts.{
  Raising, returned, raised, TokenUsage, merged_with, HitlResponse,
}

-- A leg that needs no answer has a final output.
pub record LegResult (S O : Type 0) : Type 0 where
  pub graph_state : S
  pub final_output : Option O
  pub token_usage_delta : TokenUsage

-- A run has an output, waits for an answer, or was stopped by an exception, with the tokens so far.
pub data Run (S O : Type 0) : Type 0 where
  finished : O → TokenUsage → Run S O
  waiting : S → TokenUsage → Run S O
  stopped : String → TokenUsage → Run S O

abbrev pub Leg : Type 0 → Type 0 → Type 0
Leg S O = ℕ → TokenUsage → Option HitlResponse → S → Raising (LegResult S O)

module _ {S O : Type 0} where
  -- The loop, after the `n`th leg.
  unfoldable pub after_leg :
      Leg S O → List (Option HitlResponse) → ℕ → TokenUsage → Raising (LegResult S O) → Run S O
  after_leg leg answers n used (raised e) = stopped e used
  after_leg leg [] n used (returned r) = elim r.final_output [
    | some o ↦ finished o (merged_with used r.token_usage_delta)
    | none ↦ waiting r.graph_state (merged_with used r.token_usage_delta)
  ]
  after_leg leg (none ∷ answers) n used (returned r) = elim r.final_output [
    | some o ↦ finished o (merged_with used r.token_usage_delta)
    | none ↦ stopped "TimeoutError" (merged_with used r.token_usage_delta)
  ]
  after_leg leg (some hitl ∷ answers) n used (returned r) =
      let total = merged_with used r.token_usage_delta in
      elim r.final_output [
        | some o ↦ finished o total
        | none ↦ after_leg leg answers (suc n) total (leg (suc n) total (some hitl) r.graph_state)
      ]

  unfoldable pub run_agent : Leg S O → List (Option HitlResponse) → TokenUsage → S → Run S O
  unfolding after_leg
  run_agent leg answers used seed_state = after_leg leg answers 0 used (leg 0 used none seed_state)

-- A leg with a final output ends the loop, whatever answers are left.
pub after_leg-final :
    {S O : Type 0} (leg : Leg S O) (answers : List (Option HitlResponse)) (n : ℕ)
    (used : TokenUsage) (r : LegResult S O) (o : O)
    → r.final_output ≡ some o
    → after_leg leg answers n used (returned r) ≡ finished o (merged_with used r.token_usage_delta)
unfolding after_leg
after_leg-final leg [] n used r o e = rw (e, after_leg) refl
after_leg-final leg (none ∷ answers) n used r o e = rw (e, after_leg) refl
after_leg-final leg (some hitl ∷ answers) n used r o e = rw (e, after_leg) refl

-- A leg that leaves the bound on the waits to come, `P` of a state to wait in and `Q` of an output.
module _ {S O : Type 0} (P : S → Type 0) (Q : O → Type 0) (measure : S → ℕ) where
  pub data LegHolds (bound : ℕ) : Raising (LegResult S O) → Type 0 where
    leg_raises : (e : String) → LegHolds bound (raised e)
    leg_ends :
        (r : LegResult S O) (o : O) → r.final_output ≡ some o → Q o → LegHolds bound (returned r)
    leg_waits :
        (r : LegResult S O)
        → r.final_output ≡ none
        → P r.graph_state
        → measure r.graph_state < bound
        → LegHolds bound (returned r)

-- `Q` relates an output to the answer that its leg was given.
module _ {S O : Type 0} (P : S → Type 0) (Q : Option HitlResponse → O → Type 0)
    (measure : S → ℕ) where
  -- A run whose number of answers is known, after a leg that was given `before`: while it waits, each
  -- answer has lowered the bound.
  pub data RunHolds (bound : ℕ) (before : Option HitlResponse)
      (answers : List (Option HitlResponse)) : Run S O → Type 0 where
    run_stops : (e : String) (used : TokenUsage) → RunHolds bound before answers (stopped e used)
    run_ends :
        (o : O) (used : TokenUsage) (given : Option HitlResponse)
        → Any (λ a. a ≡ given) (before ∷ answers)
        → Q given o
        → RunHolds bound before answers (finished o used)
    run_waits :
        (s : S) (used : TokenUsage)
        → P s
        → measure s + length answers < bound
        → RunHolds bound before answers (waiting s used)

  module _ (leg : Leg S O)
      (keeps : (n : ℕ) (used : TokenUsage) (hitl : HitlResponse) (s : S)
        → P s
        → LegHolds P (Q (some hitl)) measure (measure s) (leg n used (some hitl) s)) where
    later :
        (bound lower : ℕ) (before : Option HitlResponse) (hitl : HitlResponse)
        (answers : List (Option HitlResponse)) (r : Run S O)
        → lower < bound
        → RunHolds lower (some hitl) answers r
        → RunHolds bound before (some hitl ∷ answers) r
    later bound lower before hitl answers r l (run_stops e used) = run_stops e used
    later bound lower before hitl answers r l (run_ends o used given g q) =
        run_ends o used given (inr g) q
    later bound lower before hitl answers r l (run_waits s used p m) =
        run_waits s used p (omega (arith, l, m))

    after_leg-RunHolds :
        (answers : List (Option HitlResponse)) (n : ℕ) (used : TokenUsage) (bound : ℕ)
        (before : Option HitlResponse) (m : Raising (LegResult S O))
        → LegHolds P (Q before) measure bound m
        → RunHolds bound before answers (after_leg leg answers n used m)
    unfolding after_leg
    after_leg-RunHolds answers n used bound before m (leg_raises e) = run_stops e used
    after_leg-RunHolds answers n used bound before m (leg_ends r o e q) =
        rw (after_leg-final leg answers n used r o e) (run_ends o _ before (inl refl) q)
    after_leg-RunHolds [] n used bound before m (leg_waits r e p l) =
        rw (e, after_leg) (run_waits r.graph_state _ p (omega (arith, l)))
    after_leg-RunHolds (none ∷ answers) n used bound before m (leg_waits r e p l) =
        rw (e, after_leg) (run_stops "TimeoutError" _)
    after_leg-RunHolds (some hitl ∷ answers) n used bound before m (leg_waits r e p l) =
        rw (e, after_leg)
          (later bound (measure r.graph_state) before hitl answers _ l (
            after_leg-RunHolds answers (suc n) _ (measure r.graph_state) (some hitl) _
              (keeps (suc n) (merged_with used r.token_usage_delta) hitl r.graph_state p)))

    -- A run from a first leg that leaves the bound.
    pub run_agent-RunHolds :
        (answers : List (Option HitlResponse)) (used : TokenUsage) (seed_state : S) (bound : ℕ)
        → LegHolds P (Q none) measure bound (leg 0 used none seed_state)
        → RunHolds bound none answers (run_agent leg answers used seed_state)
    unfolding run_agent
    run_agent-RunHolds answers used seed_state bound h =
        after_leg-RunHolds answers 0 used bound none _ h
