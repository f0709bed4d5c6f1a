-- ===== src/Agents/Contracts.antt =====
-- packages/contracts/src/rca_contracts: what the agents exchange with the engineer and the workflow
-- (plan.py, hitl.py, agent_io.py, evidence.py). A JSON object and a UUID are their texts.
use industrial_rca.Prelude.{ℕ, ◌+◌, String, Bool, Option, none, some, List, str_eq, if◌then◌else◌}

-- An exception ends what raises it.
pub data Raising {ℓ} (A : Type ℓ) : Type ℓ where
  returned : A → Raising A
  raised : String → Raising A

infixl 5 ◌>>=◌
abbrev pub ◌>>=◌ {ℓ κ} : {A : Type ℓ} {B : Type κ} → Raising A → (A → Raising B) → Raising B
returned a >>= f = f a
raised e >>= f = raised e

pub record TokenUsage : Type 0 where
  pub input_tokens : ℕ
  pub output_tokens : ℕ

abbrev pub no_usage : TokenUsage
no_usage = record { input_tokens = 0; output_tokens = 0 }

abbrev pub merged_with : TokenUsage → TokenUsage → TokenUsage
merged_with u v = record {
  input_tokens = u.input_tokens + v.input_tokens;
  output_tokens = u.output_tokens + v.output_tokens;
}

pub record EvidenceCitation : Type 0 where
  pub section : String
  pub item_id : String
  pub relevance : Option String

pub record PlanStep : Type 0 where
  pub step_id : String
  pub step_type : String
  pub description : String
  pub parameters : String
  pub rationale : String
  pub estimated_cost : Option String

pub record FailureModeCandidate : Type 0 where
  pub iso14224_code : String
  pub name : String

pub record InvestigationPlan : Type 0 where
  pub version : ℕ
  pub asset_canonical_id : String
  pub candidate_failure_modes : List FailureModeCandidate
  pub steps : List PlanStep
  pub finalized_at : Option ℕ
  pub engineer_notes : Option String

pub record HitlQuestion : Type 0 where
  pub question_id : String
  pub text : String
  pub question_type : String
  pub required : Bool

pub data PlanEdit : Type 0 where
  remove_step : Option String → PlanEdit
  note : Option String → PlanEdit
  other_edit : PlanEdit

pub record ConclusionEdit : Type 0 where
  pub field_path : String
  pub after : String
  pub note : Option String

-- An answer without `approved` is one that rejects; of the answers to questions, the texts are kept.
pub record HitlResponse : Type 0 where
  pub answers : List (String × String)
  pub approved : Bool
  pub plan_edits : List PlanEdit
  pub conclusion_edits : List ConclusionEdit
  pub actions_approved : Option Bool
  pub engineer_notes : Option String
  pub responded_at : ℕ

-- `d.get(key, default)`.
abbrev pub or_else {ℓ} : {A : Type ℓ} → Option A → A → A
or_else none d = d
or_else (some s) d = s

-- `a or b` on what may be a text, and on a text at the end.
abbrev pub text_or : Option String → String → String
text_or none b = b
text_or (some a) b = if str_eq a "" then b else a

abbrev pub option_or : Option String → Option String → Option String
option_or none b = b
option_or (some a) b = if str_eq a "" then b else some a
