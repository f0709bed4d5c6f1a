-- ===== src/Agents/Gather/Window.antt =====
-- packages/agents/src/rca_agents/gather_graph.py, over the legs of a gathering: the question about the
-- window, and the package that it ends with.
use industrial_rca.Prelude.{
  ℕ, ◌*◌, ◌≤◌, ◌≡◌, ◌⊎◌, inl, inr, refl, ap, ◌∙◌, subst, String, true, false, not, Option, none,
  some, List, [], map, length, str_eq, All, arith, Bool-cases, sym,
}
use industrial_rca.Agents.Contracts.{
  Raising, no_usage, Raising, returned, ◌>>=◌, TokenUsage, InvestigationPlan, HitlResponse, raised,
}
use industrial_rca.Agents.Bridge.{
  LegResult, Run, finished, stopped, run_agent, LegHolds, leg_raises, leg_ends, leg_waits, RunHolds,
  run_stops, run_ends, run_waits, run_agent-RunHolds,
}
use industrial_rca.Agents.Gather.{GatherContext, EvidencePackage}
use industrial_rca.Agents.Gather.Steps.{Executed, no_rows, execute_steps}
use industrial_rca.Agents.Gather.Package.{Assembled, assemble}
use industrial_rca.Agents.Gather.Legs.{GatherState, extended, asks_scope, gather_leg, gathered}
use industrial_rca.Agents.Gather.Coverage.{
  noted_step, planned_step, execute_steps-notes, execute_steps-no_tags,
}
use industrial_rca.Agents.Gather.Assembly.{
  Packs, asks_scope-extended, asks_scope-unextended, assemble-Packs, packs, packs_raises,
}

-- The package notes each step of the plan in order, and looked back as far as was asked, or twice.
pub record IsFaithful (plan : InvestigationPlan) (lookback : ℕ) (pkg : EvidencePackage)
    : Type 0 where
  pub noted : map noted_step pkg.plan_execution_notes ≡ map planned_step plan.steps
  pub window : (pkg.lookback_hours ≡ lookback) ⊎ (pkg.lookback_hours ≡ lookback * 2)
  pub asset : pkg.canonical_id ≡ plan.asset_canonical_id

-- A state that waits for the answer about the window.
record IsScope (plan : InvestigationPlan) (lookback : ℕ) (st : GatherState) : Type 0 where
  asked : st.awaiting_scope ≡ true
  unextended : st.window_extended ≡ false
  same_plan : st.plan ≡ plan
  same_lookback : st.lookback_hours ≡ lookback

abbrev executed : GatherContext → GatherState → Executed
executed ctx st =
    execute_steps ctx st.plan.asset_canonical_id st.lookback_hours 0 st.plan.steps
      (record { raw = no_rows; notes = []; provenance = [] })

module _ (ctx : GatherContext) (plan : InvestigationPlan) (lookback : ℕ) where
  abbrev Ends : ℕ → Raising (LegResult GatherState EvidencePackage) → Type 0
  Ends = LegHolds (IsScope plan lookback) (IsFaithful plan lookback) (λ st. 0)

  ended :
      (bound : ℕ) (st : GatherState) (m : Raising Assembled)
      → st.plan ≡ plan
      → (st.lookback_hours ≡ lookback) ⊎ (st.lookback_hours ≡ lookback * 2)
      → Packs ctx plan (executed ctx st) st.lookback_hours m
      → Ends bound (
          m >>= λ a. returned (record {
            graph_state = record st {
              raw = (executed ctx st).raw;
              evidence_package_id = some a.pkg.evidence_package_id;
            };
            final_output = some a.pkg;
            token_usage_delta = a.usage;
          }))
  ended bound st m p w (packs_raises x) = leg_raises x
  ended bound st m p w (packs a n l c t) = leg_ends _ a.pkg refl (record {
    noted =
        ap (map noted_step) n
        ∙ execute_steps-notes ctx st.plan.asset_canonical_id st.lookback_hours 0 st.plan.steps _
        ∙ ap (λ (q : InvestigationPlan). map planned_step q.steps) p;
    window = within w l;
    asset = c;
  })
    where
      within :
          (st.lookback_hours ≡ lookback) ⊎ (st.lookback_hours ≡ lookback * 2)
          → a.pkg.lookback_hours ≡ st.lookback_hours
          → (a.pkg.lookback_hours ≡ lookback) ⊎ (a.pkg.lookback_hours ≡ lookback * 2)
      within (inl e) l = inl (l ∙ e)
      within (inr e) l = inr (l ∙ e)

  -- A leg whose window was extended ends; another may ask.
  assembled :
      (bound : ℕ) (st : GatherState)
      → st.plan ≡ plan
      → (st.lookback_hours ≡ lookback) ⊎ (st.lookback_hours ≡ lookback * 2)
      → Ends bound (
          assemble ctx st.plan (executed ctx st) st.lookback_hours >>= λ a. returned (record {
            graph_state = record st {
              raw = (executed ctx st).raw;
              evidence_package_id = some a.pkg.evidence_package_id;
            };
            final_output = some a.pkg;
            token_usage_delta = a.usage;
          }))
  assembled bound st p w = ended bound st _ p w (
      subst
        (λ q.
          Packs ctx q (executed ctx st) st.lookback_hours
            (assemble ctx st.plan (executed ctx st) st.lookback_hours))
        p (assemble-Packs ctx st.plan (executed ctx st) st.lookback_hours))

  first :
      (st : GatherState)
      → st.plan ≡ plan
      → st.lookback_hours ≡ lookback
      → Ends 1 (gather_leg ctx none st)
  unfolding gather_leg gathered extended
  first st p l = elim (Bool-cases (asks_scope (executed ctx st).raw.tags st.window_extended)) [
    | inl y ↦
        rw (y, gathered)
          (leg_waits _ refl
            (record {
              asked = refl;
              unextended = asks_scope-unextended (executed ctx st).raw.tags st.window_extended y;
              same_plan = p;
              same_lookback = l;
            })
            (omega arith))
    | inr n ↦ rw (n, gathered) (assembled 1 st p (inl l))
  ]

  -- The window is extended once: the next leg does not ask.
  extended_ends :
      (st : GatherState)
      → st.window_extended ≡ true
      → st.plan ≡ plan
      → st.lookback_hours ≡ lookback * 2
      → Ends 0 (gathered ctx st)
  unfolding gathered
  extended_ends st w p l =
      let quiet : asks_scope (executed ctx st).raw.tags st.window_extended ≡ false =
        ap (asks_scope (executed ctx st).raw.tags) w
        ∙ asks_scope-extended (executed ctx st).raw.tags in
      rw (quiet, gathered) (assembled 0 st p (inr l))

  second :
      (hitl : HitlResponse) (st : GatherState)
      → IsScope plan lookback st
      → Ends 0 (gather_leg ctx (some hitl) st)
  unfolding gather_leg extended
  second hitl st s =
      let wide : GatherState = record st {
        lookback_hours = st.lookback_hours * 2;
        awaiting_scope = false;
        window_extended = true;
      } in
      let widened : extended st (some hitl) ≡ wide = simp (s.asked, extended) in
      subst (λ q. Ends 0 (gathered ctx q)) (sym widened)
        (extended_ends wide refl s.same_plan (ap (λ t. t * 2) s.same_lookback))

-- However the tools, the model and the engineer answer, one answer ends a gathering. It has a package,
-- or a leg raised an exception, or the wait timed out. The package has a note for each step of the
-- plan, in order, is of the plan's asset, and looked back as far as was asked or twice as far.
pub gather_ends :
    (ctx : ℕ → TokenUsage → GatherContext) (answers : List (Option HitlResponse))
    (used : TokenUsage) (st : GatherState)
    → 1 ≤ length answers
    → let leg = λ (n : ℕ) (u : TokenUsage). gather_leg (ctx n u) in
      ((pkg : EvidencePackage) × (total : TokenUsage) × (run_agent leg answers used st
          ≡ finished pkg total)
        × IsFaithful st.plan st.lookback_hours pkg)
      ⊎ ((e : String) × (at : TokenUsage) × (run_agent leg answers used st ≡ stopped e at))
gather_ends ctx answers used st l = ended _ (
    run_agent-RunHolds (IsScope st.plan st.lookback_hours)
      (λ given. IsFaithful st.plan st.lookback_hours) (λ x. 0) (λ n u. gather_leg (ctx n u))
      (λ n u hitl x p. second (ctx n u) st.plan st.lookback_hours hitl x p) answers used st 1
      (first (ctx 0 used) st.plan st.lookback_hours st refl refl))
  where
    ended :
        (r : Run GatherState EvidencePackage)
        → RunHolds
            (IsScope st.plan st.lookback_hours)
            (λ given. IsFaithful st.plan st.lookback_hours)
            (λ x. 0)
            1
            none
            answers
            r
        → ((pkg : EvidencePackage) × (total : TokenUsage) × (r ≡ finished pkg total)
            × IsFaithful st.plan st.lookback_hours pkg)
          ⊎ ((e : String) × (at : TokenUsage) × (r ≡ stopped e at))
    ended r (run_stops e at) = inr (e, at, refl)
    ended r (run_ends pkg total given g q) = inl (pkg, total, refl, q)
    ended r (run_waits x total w m) = absurd (omega (arith, m, l))

-- A leg that raises, or ends with a package without tags.
abbrev pub HasNoTags : Raising (LegResult GatherState EvidencePackage) → Type 0
HasNoTags (raised e) = Unit
HasNoTags (returned r) = (pkg : EvidencePackage) × (r.final_output ≡ some pkg) × (pkg.tags ≡ [])

module _ (ctx : GatherContext) (st : GatherState)
    (none_planned : All (λ s. str_eq s.step_type "tag_history" ≡ false) st.plan.steps) where
  no_tags : (executed ctx st).raw.tags ≡ []
  no_tags =
      execute_steps-no_tags ctx st.plan.asset_canonical_id st.lookback_hours 0 st.plan.steps
        (record { raw = no_rows; notes = []; provenance = [] }) none_planned

  -- A leg that does not ask any more.
  untagged : st.window_extended ≡ true → HasNoTags (gathered ctx st)
  unfolding gathered
  untagged w =
      subst HasNoTags (sym quiet)
        (of_package _ (assemble-Packs ctx st.plan (executed ctx st) st.lookback_hours))
    where
      stored : Raising Assembled → Raising (LegResult GatherState EvidencePackage)
      stored m = m >>= λ a. returned (record {
        graph_state = record st {
          raw = (executed ctx st).raw;
          evidence_package_id = some a.pkg.evidence_package_id;
        };
        final_output = some a.pkg;
        token_usage_delta = a.usage;
      })

      quiet : gathered ctx st ≡ stored (assemble ctx st.plan (executed ctx st) st.lookback_hours)
      quiet =
          let asks : asks_scope (executed ctx st).raw.tags st.window_extended ≡ false =
            ap (asks_scope (executed ctx st).raw.tags) w
            ∙ asks_scope-extended (executed ctx st).raw.tags in
          rw (asks, gathered) refl

      of_package :
          (m : Raising Assembled)
          → Packs ctx st.plan (executed ctx st) st.lookback_hours m
          → HasNoTags (stored m)
      of_package m (packs_raises x) = tt
      of_package m (packs a n l c t) = (a.pkg, refl, t ∙ no_tags)

-- A first leg of a plan without a step for the tag history asks the engineer to extend the window. The
-- leg after any answer, whatever its tools answer, raises or ends with a package without tags.
pub gather_asks :
    (ctx later : GatherContext) (st : GatherState) (hitl : HitlResponse)
    → All (λ s. str_eq s.step_type "tag_history" ≡ false) st.plan.steps
    → st.window_extended ≡ false
    → (waits : LegResult GatherState EvidencePackage) × (gather_leg ctx none st ≡ returned waits)
      × (waits.final_output ≡ none)
      × (waits.graph_state.awaiting_scope ≡ true)
      × HasNoTags (gather_leg later (some hitl) waits.graph_state)
unfolding gather_leg gathered extended asks_scope
gather_asks ctx later st hitl h w =
    let e = executed ctx st in
    let asks : asks_scope e.raw.tags st.window_extended ≡ true =
      ap (λ t. asks_scope t st.window_extended) (no_tags ctx st h) ∙ ap not w in
    let asked : GatherState = record st { raw = e.raw; awaiting_scope = true } in
    (
      record { graph_state = asked; final_output = none; token_usage_delta = no_usage },
      rw (asks, gathered) refl,
      refl,
      refl,
      untagged later
          (record asked {
            lookback_hours = asked.lookback_hours * 2;
            awaiting_scope = false;
            window_extended = true;
          })
          h refl,
    )
