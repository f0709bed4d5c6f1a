-- ===== src/Agents/Planning.antt =====
-- packages/agents/src/rca_agents/planning_graph.py: the steps of a plan, and what the engineer's answer
-- to a proposed plan does. A draft of the model whose steps the schema admits, the ids that `det_uuid`
-- mints and the plan that a new draft makes are arguments; JSON objects are their texts, and an answer without `approved` is one that rejects.
pub mod Bound
pub mod Baseline
use Prim.Native.String.{◌++◌ as str_append}
use industrial_rca.Agents.Contracts.{
  PlanStep, InvestigationPlan, PlanEdit, HitlResponse, remove_step, note, other_edit, or_else,
}
use industrial_rca.Prelude.{
  ℕ, suc, ◌+◌, String, Bool, true, false, not, Option, none, some, List, [], ◌∷◌, ◌++◌, map,
  keep_if, mem_text, str_eq, ltb,
}

-- A step of the draft.
pub record DraftStep : Type 0 where
  pub step_type : String
  pub description : Option String
  pub parameters : Option String
  pub rationale : Option String
  pub estimated_cost : Option String

-- The ids of the steps of a version: of the draft's, and of the baseline's.
pub record StepIds : Type 0 where
  pub drafted : ℕ → ℕ → String
  pub added : ℕ → ℕ → String

unfoldable pub drafted_steps : StepIds → ℕ → ℕ → List DraftStep → List PlanStep
drafted_steps ids version i [] = []
drafted_steps ids version i (s ∷ raw) =
    record {
      step_id = ids.drafted version i;
      step_type = s.step_type;
      description = or_else s.description s.step_type;
      parameters = or_else s.parameters "{}";
      rationale = or_else s.rationale "";
      estimated_cost = s.estimated_cost;
    }
    ∷ drafted_steps ids version (suc i) raw

pub record DefaultStep : Type 0 where
  pub step_type : String
  pub description : String
  pub parameters : String

abbrev pub default_steps : List DefaultStep
default_steps =
    record {
      step_type = "tag_history";
      description = "Pull tag history for the asset";
      parameters = "{\"lookback_hours\": 168}";
    }
    ∷ record {
      step_type = "work_orders";
      description = "List recent work orders";
      parameters = "{}";
    }
    ∷ record {
      step_type = "documents";
      description = "Search asset documents";
      parameters = "{\"query\": \"failure\"}";
    }
    ∷ record {
      step_type = "operator_logs";
      description = "List operator log entries";
      parameters = "{}";
    }
    ∷ record {
      step_type = "kg_query";
      description = "Load KG asset context + applicable failure modes";
      parameters = "{}";
    }
    ∷ []

abbrev pub type_of_step : PlanStep → String
type_of_step s = s.step_type

unfoldable pub added_steps : StepIds → ℕ → List String → ℕ → List DefaultStep → List PlanStep
added_steps ids version present j [] = []
added_steps ids version present j (d ∷ defaults) =
    let rest = added_steps ids version present (suc j) defaults in
    elim (mem_text d.step_type present) [
      | true ↦ rest
      | false ↦
          record {
            step_id = ids.added version j;
            step_type = d.step_type;
            description = d.description;
            parameters = d.parameters;
            rationale = "baseline coverage";
            estimated_cost = some "fast";
          }
          ∷ rest
    ]

unfoldable pub coerce_steps : StepIds → ℕ → List DraftStep → List PlanStep
unfolding drafted_steps added_steps
coerce_steps ids version raw =
    let steps = drafted_steps ids version 0 raw in
    steps ++ added_steps ids version (map type_of_step steps) 0 default_steps

-- The loop over the edits; `strip` is Python's.
unfoldable pub edit_loop :
    (String → String) → List PlanEdit → List PlanStep × String → List PlanStep × String
edit_loop strip [] acc = acc
edit_loop strip (remove_step (some id) ∷ edits) (steps, notes) =
    edit_loop strip edits (keep_if (λ s. not (str_eq s.step_id id)) steps, notes)
edit_loop strip (note (some text) ∷ edits) (steps, notes) = elim (str_eq text "") [
  | true ↦ edit_loop strip edits (steps, notes)
  | false ↦ edit_loop strip edits (steps, strip (str_append notes (str_append "\n" text)))
]
edit_loop strip (_ ∷ edits) acc = edit_loop strip edits acc

unfoldable pub apply_edits :
    (String → String) → InvestigationPlan → HitlResponse → InvestigationPlan
unfolding edit_loop
apply_edits strip plan hitl =
    let (steps, notes) =
      edit_loop strip hitl.plan_edits (plan.steps, or_else plan.engineer_notes "") in
    record plan {
      version = suc plan.version;
      steps = steps;
      engineer_notes = elim (str_eq notes "") [ true ↦ hitl.engineer_notes | false ↦ some notes ];
    }

abbrev pub max_replan_cycles : ℕ
max_replan_cycles = 2

-- What the graph keeps of the planning between its legs.
pub record GraphState : Type 0 where
  pub plan : InvestigationPlan
  pub plan_version : ℕ
  pub replan_count : ℕ

-- The plan that an answer finalizes, the abort, or a new proposal.
pub data Leg : Type 0 where
  finalized : InvestigationPlan → Leg
  planning_aborted : Leg
  propose_again : Leg

abbrev pub edited : (String → String) → GraphState → HitlResponse → GraphState
edited strip st hitl = elim hitl.plan_edits [
  | [] ↦ st
  | ◌∷◌ e edits ↦ record st { plan = apply_edits strip st.plan hitl }
]

unfoldable pub apply_approval : (String → String) → GraphState → HitlResponse → Leg × GraphState
unfolding apply_edits
apply_approval strip st hitl =
    let state : GraphState = edited strip st hitl in
    elim hitl.approved [
      | true ↦ (
        finalized (record state.plan {
          finalized_at = some hitl.responded_at;
          engineer_notes = hitl.engineer_notes;
        }),
        state,
      )
      | false ↦
          let counted : GraphState = record state { replan_count = suc state.replan_count } in
          (
            elim (ltb max_replan_cycles (suc state.replan_count)) [
              | true ↦ planning_aborted
              | false ↦ propose_again
            ],
            counted,
          )
    ]

-- `_build_and_propose`, as far as the state goes.
unfoldable pub build_and_propose : (ℕ → InvestigationPlan) → GraphState → GraphState
build_and_propose draft st = record st {
  plan = draft (suc st.plan_version);
  plan_version = suc st.plan_version;
}

-- The legs of the planning, one answer after another; `none` still waits for an answer.
unfoldable pub planning :
    (String → String)
    → (ℕ → InvestigationPlan)
    → List HitlResponse
    → GraphState
    → Option Leg × GraphState
unfolding apply_approval build_and_propose
planning strip draft [] st = (none, st)
planning strip draft (hitl ∷ answers) st =
    let (leg, after) = apply_approval strip st hitl in
    elim leg [
      | finalized plan ↦ (some (finalized plan), after)
      | planning_aborted ↦ (some planning_aborted, after)
      | propose_again ↦ planning strip draft answers (build_and_propose draft after)
    ]
