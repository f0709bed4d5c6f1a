-- ===== src/Agents/Analysis/Answers.antt =====
-- packages/agents/src/rca_agents/rca_graph.py, `_apply_hitl` and `_finalize_or_regen`: what an answer of
-- the engineer does to the state of an analysis.
use industrial_rca.Agents.Contracts.{Raising, returned, raised, HitlResponse, or_else}
use industrial_rca.Agents.Analysis.{
  evidence_gaps, a_why, a_review, RcaState, RcaLeg, approves, gives_up, Awaiting,
}
use industrial_rca.Agents.Analysis.Conclusion.{edit_of}
use industrial_rca.Prelude.{
  ℕ, suc, ◌+◌, String, true, false, Option, none, some, List, [], ◌∷◌, ◌++◌, map, length, ltb,
}

abbrev pub max_conclusion_regenerations : ℕ
max_conclusion_regenerations = 1

-- An answer lets the leg go on, or ends the analysis.
pub data Resumed : Type 0 where
  goes_on : RcaState → Resumed
  ends : RcaLeg → RcaState → Resumed

unfoldable pub finalize_or_regen : RcaState → HitlResponse → Raising Resumed
unfolding edit_of
finalize_or_regen st hitl = elim st.conclusion [
  | none ↦ raised "KeyError"
  | some conclusion ↦ elim hitl.approved [
    | true ↦ returned (
        ends
          (approves
            (record conclusion {
              engineer_approval_status = elim hitl.conclusion_edits [
                | [] ↦ some "approved"
                | ◌∷◌ e edits ↦ some "approved_with_edits"
              ];
              engineer_notes = hitl.engineer_notes;
              finalized_at = some hitl.responded_at;
              engineer_edits = map (edit_of hitl) hitl.conclusion_edits;
            })
            (or_else hitl.actions_approved true))
          st)
    | false ↦
        let counted : RcaState = record st { regen_count = suc st.regen_count } in
        elim (ltb max_conclusion_regenerations (suc st.regen_count)) [
          | true ↦ returned (
              ends
                (gives_up (record conclusion {
                  engineer_approval_status = some "rejected";
                  finalized_at = some hitl.responded_at;
                  engineer_notes = hitl.engineer_notes;
                }))
                counted)
          | false ↦ returned (goes_on (record counted { conclusion = none }))
        ]
  ]
]

-- `hitl.answers[0].answer if hitl.answers else "unknown"`.
abbrev pub first_answer : List (String × String) → String
first_answer [] = "unknown"
first_answer ((question, answer) ∷ answers) = answer

-- What the answer is about; `st` waits for nothing.
unfoldable pub apply_answer : Option Awaiting → RcaState → HitlResponse → Raising Resumed
unfolding finalize_or_regen
apply_answer none st hitl = returned (goes_on st)
apply_answer (some evidence_gaps) st hitl =
    returned (goes_on (record st { gap_answers = hitl.answers }))
apply_answer (some a_why) st hitl = returned (
    goes_on (record st {
      five_whys =
          st.five_whys
          ++ (record {
            rank = length st.five_whys + 1;
            why_question = or_else st.pending_why "why?";
            answer = first_answer hitl.answers;
            answer_source = "engineer_hitl";
            supporting_evidence = [];
          }
              ∷ []);
      pending_why = none;
    }))
apply_answer (some a_review) st hitl = finalize_or_regen st hitl

unfoldable pub apply_hitl : RcaState → HitlResponse → Raising Resumed
unfolding apply_answer
apply_hitl state hitl = apply_answer state.awaiting (record state { awaiting = none }) hitl
