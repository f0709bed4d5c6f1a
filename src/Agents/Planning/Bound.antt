-- ===== src/Agents/Planning/Bound.antt =====
-- packages/agents/src/rca_agents/planning_graph.py: how often a rejected plan is drafted again.
use industrial_rca.Prelude.{
  ℕ, suc, ◌+◌, ◌≤◌, ◌<◌, String, Bool, true, false, ◌≡◌, refl, ap, sym, ◌∙◌, Option, some, List, [],
  ◌∷◌, length, All, arith, ltb, inl, inr, Bool-cases,
}
use industrial_rca.Agents.Contracts.{InvestigationPlan, PlanEdit, ConclusionEdit, HitlResponse}
use industrial_rca.Agents.Planning.{
  GraphState, planning_aborted, edited, max_replan_cycles, apply_approval, build_and_propose,
  planning,
}

module _ (strip : String → String) (draft : ℕ → InvestigationPlan) where
  -- An answer ends the planning with the drafts as they are, or one more plan is drafted.
  data Answered (hitl : HitlResponse) (answers : List HitlResponse) (st : GraphState) : Type 0 where
    approves :
        hitl.approved ≡ true
        → (planning strip draft (hitl ∷ answers) st).1.plan_version ≡ st.plan_version
        → Answered hitl answers st
    aborts :
        (planning strip draft (hitl ∷ answers) st).0 ≡ some planning_aborted
        → (planning strip draft (hitl ∷ answers) st).1.plan_version ≡ st.plan_version
        → Answered hitl answers st
    drafts :
        (mid : GraphState)
        → st.replan_count < max_replan_cycles
        → mid.plan_version ≡ suc st.plan_version
        → mid.replan_count ≡ suc st.replan_count
        → planning strip draft (hitl ∷ answers) st ≡ planning strip draft answers mid
        → Answered hitl answers st

  abbrev answer_of :
      Bool
      → List PlanEdit
      → List (String × String)
      → List ConclusionEdit
      → Option Bool
      → Option String
      → ℕ
      → HitlResponse
  answer_of a edits asked changes actions notes at = record {
    approved = a;
    plan_edits = edits;
    answers = asked;
    conclusion_edits = changes;
    actions_approved = actions;
    engineer_notes = notes;
    responded_at = at;
  }

  abbrev redrafted : GraphState → GraphState → GraphState
  redrafted st after = build_and_propose draft (record after { replan_count = suc st.replan_count })

  step_of :
      (a : Bool) (edits : List PlanEdit) (asked : List (String × String))
      (changes : List ConclusionEdit) (actions : Option Bool) (notes : Option String) (at : ℕ)
      (answers : List HitlResponse) (st : GraphState)
      → Answered (answer_of a edits asked changes actions notes at) answers st
  unfolding planning apply_approval build_and_propose
  step_of true [] asked changes actions notes at answers st = approves refl refl
  step_of true (e ∷ edits) asked changes actions notes at answers st = approves refl refl
  step_of false [] asked changes actions notes at answers st =
      elim (Bool-cases (ltb max_replan_cycles (suc st.replan_count))) [
        | inl y ↦ aborts (rw (y, planning) refl) (rw (y, planning) refl)
        | inr n ↦
            drafts
              (redrafted st (edited strip st (answer_of false [] asked changes actions notes at)))
              (ground arith) refl refl (rw (n, planning) refl)
      ]
  step_of false (e ∷ edits) asked changes actions notes at answers st =
      elim (Bool-cases (ltb max_replan_cycles (suc st.replan_count))) [
        | inl y ↦ aborts (rw (y, planning) refl) (rw (y, planning) refl)
        | inr n ↦
            drafts
              (redrafted st
                (edited strip st (answer_of false (e ∷ edits) asked changes actions notes at)))
              (ground arith) refl refl (rw (n, planning) refl)
      ]

  abbrev Rejects : HitlResponse → Type 0
  Rejects hitl = hitl.approved ≡ false

  -- How many plans are drafted, and what so many rejections lead to.
  bounded :
      (answers : List HitlResponse) (st : GraphState)
      → st.replan_count ≤ max_replan_cycles
      → ((planning strip draft answers st).1.plan_version + st.replan_count
          ≤ st.plan_version + max_replan_cycles)
        × (All Rejects answers
            → suc max_replan_cycles ≤ length answers + st.replan_count
            → (planning strip draft answers st).0 ≡ some planning_aborted)
  unfolding planning
  bounded [] st h = (omega arith, λ a l. absurd (omega arith))
  bounded (hitl ∷ answers) st h =
      elim (step_of hitl.approved hitl.plan_edits hitl.answers hitl.conclusion_edits
        hitl.actions_approved hitl.engineer_notes hitl.responded_at answers st) [
          | approves a v ↦
              (omega (arith, v), λ r l. absurd (let c : true ≡ false = sym a ∙ r.0 in cc))
          | aborts o v ↦ (omega (arith, v), λ r l. o)
          | drafts mid m v c e ↦
              let rest = bounded answers mid (omega (arith, m, c)) in
              (
                omega (arith, rest.0, v, c, ap (λ t. t.1.plan_version) e),
                λ r l. ap (λ t. t.0) e ∙ rest.1 r.1 (omega (arith, l, c)),
              )
        ]

-- However the engineer answers, a planning that starts without a rejection drafts at most two more
-- plans.
pub drafts_bounded :
    (strip : String → String) (draft : ℕ → InvestigationPlan) (answers : List HitlResponse)
    (st : GraphState)
    → st.replan_count ≡ 0
    → (planning strip draft answers st).1.plan_version ≤ st.plan_version + 2
drafts_bounded strip draft answers st z =
    omega (arith, (bounded strip draft answers st (omega (arith, z))).0, z)

-- A planning that starts without a rejection, and gets three answers or more that all reject, is
-- aborted.
pub rejections_abort :
    (strip : String → String) (draft : ℕ → InvestigationPlan) (answers : List HitlResponse)
    (st : GraphState)
    → st.replan_count ≡ 0
    → All (λ h. h.approved ≡ false) answers
    → 3 ≤ length answers
    → (planning strip draft answers st).0 ≡ some planning_aborted
rejections_abort strip draft answers st z r l =
    (bounded strip draft answers st (omega (arith, z))).1 r (omega (arith, l, z))
