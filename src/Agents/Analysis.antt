-- ===== src/Agents/Analysis.antt =====
-- packages/agents/src/rca_agents/rca_graph.py, the analysis of an evidence package: what the model
-- answers, what the graph keeps between its legs, and the conclusion of
-- packages/contracts/src/rca_contracts/rca.py. The fields that the code reads of an answer have the
-- types of the prompt's schema; confidences are numbers of ten-thousandths.
pub mod Words
pub mod Conclusion
pub mod Answers
pub mod Nodes
pub mod Legs
pub mod Whys
pub mod Steps
pub mod Waiting
pub mod Bound
pub mod Vocabulary
pub mod Validation
pub mod Regeneration
pub mod Duplicates
pub mod Tests
use industrial_rca.Prelude.{ℕ, String, Bool, Option, List}
use industrial_rca.Agents.Contracts.{Raising, TokenUsage, EvidenceCitation, HitlQuestion}

-- `det_uuid` for this run, and what Python does on texts.
pub record LegContext : Type 0 where
  pub reference_time : ℕ
  pub det_uuid : List String → String
  pub strip : String → String
  pub lower : String → String
  pub str : ℕ → String

-- What the analysis reads of the evidence package. A failure mode has its code and its mechanisms.
pub record EvidencePackage : Type 0 where
  pub evidence_package_id : String
  pub canonical_id : String
  pub asset_name : String
  pub anomalies : List String
  pub applicable_failure_modes : List (String × List String)

-- What the model answers, field by field.
pub record RawCitation : Type 0 where
  pub section : Option String
  pub item_id : Option String
  pub relevance : Option String

pub record RawCause : Type 0 where
  pub cause : Option String
  pub name : Option String
  pub description : Option String
  pub sub_causes : List String
  pub supporting_evidence : List RawCitation

pub record RawCategory : Type 0 where
  pub category : Option String
  pub name : Option String
  pub causes : List RawCause

pub record RawQuestion : Type 0 where
  pub text : Option String
  pub question : Option String
  pub gap : Option String
  pub description : Option String
  pub question_type : Option String

pub record RawHypothesis : Type 0 where
  pub iso14224_failure_mode : Option String
  pub iso14224_mechanism : Option String
  pub iso14224_cause : Option String
  pub confidence : Option ℕ
  pub narrative : Option String
  pub supporting_evidence : List RawCitation

pub record RawAction : Type 0 where
  pub action : Option String
  pub recommendation : Option String
  pub description : Option String
  pub rationale : Option String
  pub priority : Option String
  pub estimated_effort : Option String
  pub target : Option String
  pub preconditions : List String

pub record RawRequest : Type 0 where
  pub request : Option String
  pub question : Option String
  pub description : Option String
  pub rationale : Option String
  pub target : Option String

pub record FishboneReply : Type 0 where
  pub fishbone : List RawCategory
  pub usage : TokenUsage
  pub llm_call_id : String

pub record GapsReply : Type 0 where
  pub needs_hitl : Bool
  pub questions : List RawQuestion
  pub usage : TokenUsage
  pub llm_call_id : String

pub record WhyReply : Type 0 where
  pub needs_human_knowledge : Bool
  pub why_question : Option String
  pub answer : Option String
  pub answer_source : Option String
  pub supporting_evidence : List RawCitation
  pub is_root_cause : Bool
  pub usage : TokenUsage
  pub llm_call_id : String

pub record RankReply : Type 0 where
  pub primary_hypothesis : RawHypothesis
  pub alternative_hypotheses : List RawHypothesis
  pub recommended_actions : List RawAction
  pub open_data_requests : List RawRequest
  pub usage : TokenUsage
  pub llm_call_id : String

-- A step of the chain, as the state keeps it.
pub record WhyStep : Type 0 where
  pub rank : ℕ
  pub why_question : String
  pub answer : String
  pub answer_source : String
  pub supporting_evidence : List RawCitation

-- The model during one leg: an answer to each prompt, or an exception.
pub record Model : Type 0 where
  pub build_fishbone : Raising FishboneReply
  pub detect_evidence_gaps : List RawCategory → Raising GapsReply
  pub five_whys_step : List WhyStep → Raising WhyReply
  pub rank_hypotheses : List RawCategory → List WhyStep → Raising RankReply

pub record FiveWhysStep : Type 0 where
  pub rank : ℕ
  pub why_question : String
  pub answer : String
  pub answer_source : String
  pub supporting_evidence : List EvidenceCitation

pub record FiveWhysChain : Type 0 where
  pub chain_id : String
  pub initial_problem : String
  pub steps : List FiveWhysStep
  pub terminal_root_cause : String
  pub confidence : ℕ

pub record FishboneCause : Type 0 where
  pub cause : String
  pub sub_causes : List String
  pub supporting_evidence : List EvidenceCitation

pub record FishboneCategory : Type 0 where
  pub category : String
  pub causes : List FishboneCause

pub record RankedHypothesis : Type 0 where
  pub rank : ℕ
  pub iso14224_failure_mode : String
  pub iso14224_mechanism : String
  pub iso14224_cause : Option String
  pub confidence : ℕ
  pub narrative : String
  pub supporting_evidence : List EvidenceCitation

pub record RecommendedAction : Type 0 where
  pub action : String
  pub rationale : String
  pub priority : String
  pub estimated_effort : Option String
  pub target : Option String
  pub preconditions : List String

pub record OpenDataRequest : Type 0 where
  pub request : String
  pub rationale : String
  pub target : Option String

pub record EngineerEdit : Type 0 where
  pub field_path : String
  pub after : String
  pub edited_at : ℕ
  pub engineer_notes : Option String

pub record RcaConclusion : Type 0 where
  pub conclusion_id : String
  pub evidence_package_id : String
  pub canonical_id : String
  pub primary_hypothesis : RankedHypothesis
  pub alternative_hypotheses : List RankedHypothesis
  pub fishbone : List FishboneCategory
  pub five_whys : FiveWhysChain
  pub recommended_actions : List RecommendedAction
  pub open_data_requests : List OpenDataRequest
  pub engineer_edits : List EngineerEdit
  pub engineer_approval_status : Option String
  pub engineer_notes : Option String
  pub validation_errors : List String
  pub generated_at : ℕ
  pub finalized_at : Option ℕ

-- What an answer of the engineer is about.
pub data Awaiting : Type 0 where
  evidence_gaps : Awaiting
  a_why : Awaiting
  a_review : Awaiting

pub record RcaState : Type 0 where
  pub awaiting : Option Awaiting
  pub fishbone : Option (List RawCategory)
  pub gaps_checked : Bool
  pub gap_answers : List (String × String)
  pub five_whys : List WhyStep
  pub pending_why : Option String
  pub conclusion : Option RcaConclusion
  pub regen_count : ℕ

-- A leg asks the engineer, or it ends the analysis with a conclusion.
pub data RcaLeg : Type 0 where
  asks_gaps : List HitlQuestion → RcaLeg
  asks_why : HitlQuestion → RcaLeg
  proposes : RcaConclusion → RcaLeg
  approves : RcaConclusion → Bool → RcaLeg
  gives_up : RcaConclusion → RcaLeg

pub record AgentLegResult : Type 0 where
  pub leg : RcaLeg
  pub graph_state : RcaState
  pub token_usage_delta : TokenUsage
  pub new_llm_call_ids : List String
