-- ===== src/Agents/Gather.antt =====
-- packages/agents/src/rca_agents/gather_graph.py, the gathering of evidence, with the records of
-- packages/contracts/src/rca_contracts/evidence.py. The toolbox, the model and Python's work on texts
-- and fractions are arguments, and so is whether an id is canonical, which a regular expression tells;
-- the rows that are only passed on are their texts. Of the asset, the package keeps the id, the name
-- and the class.
pub mod Steps
pub mod Documents
pub mod Anomalies
pub mod Package
pub mod Legs
pub mod Coverage
pub mod Assembly
pub mod Window
pub mod Tests
use industrial_rca.Prelude.{ℕ, String, Bool, Option, List}
use industrial_rca.Agents.Contracts.{Raising, TokenUsage, PlanStep}

pub record ProvenanceEntry : Type 0 where
  pub section : String
  pub connection_id : Option String
  pub tool_name : String
  pub record_count : ℕ

-- A tag's row, with what the rule reads of it.
pub record Tag : Type 0 where
  pub tag_name : String
  pub role : Option String
  pub summary : Option String
  pub severity : Option String
  pub mean : Option ℕ
  pub max : Option ℕ

pub record Document : Type 0 where
  pub document_id : String
  pub title : Option String
  pub doc_type : Option String
  pub excerpt : Option String

-- A hit of the vector search.
pub record Hit : Type 0 where
  pub document_id : String
  pub doc_type : Option String
  pub score : ℕ

pub record AssetContext : Type 0 where
  pub iso14224_class : Option String
  pub applicable_failure_modes : List (String × List String)
  pub asset_name : Option String

-- Each tool may answer otherwise at each step of the plan.
pub record ToolBox : Type 0 where
  pub tag_history : ℕ → String → ℕ → Raising (List Tag × ProvenanceEntry)
  pub work_orders_for_asset : ℕ → String → Raising (List String × ProvenanceEntry)
  pub documents_for_asset : ℕ → String → String → Raising (List Document × ProvenanceEntry)
  pub operator_logs_for_asset : ℕ → String → ℕ → Raising (List String × ProvenanceEntry)
  pub get_asset_context : ℕ → String → Raising AssetContext
  pub failure_modes_for_class : String → Raising (List (String × List String))
  pub upsert_asset : String → String → String → Raising Bool
  pub link_failure_mode : String → String → Raising Bool
  pub search_documents_by_vector : String → String → ℕ → Raising (List Hit)

pub record TagAnomaly : Type 0 where
  pub tag_name : String
  pub role : Option String
  pub summary : String
  pub severity : Option String

-- What the model answers about the tags; `none` is an answer without the anomalies.
pub record AnomalyReply : Type 0 where
  pub anomalies : Option (List TagAnomaly)
  pub usage : TokenUsage
  pub llm_call_id : String

-- The context of a leg. `rounded a b` is `round(a / b, 4)` in ten-thousandths, `holds` is Python's `in`.
pub record GatherContext : Type 0 where
  pub toolbox : ToolBox
  pub detect_tag_anomalies : List Tag → Raising AnomalyReply
  pub embed : String → Raising String
  pub det_uuid : List String → String
  pub parameter : String → String → Option String
  pub cut_to_200 : String → String
  pub lower : String → String
  pub upper : String → String
  pub split : String → List String
  pub last_part : String → String
  pub holds : String → String → Bool
  pub rounded : ℕ → ℕ → ℕ
  pub is_canonical : String → Bool

pub record Raw : Type 0 where
  pub tags : List Tag
  pub work_orders : List String
  pub documents : List Document
  pub operator_logs : List String
  pub context : Option AssetContext

pub data StepStatus : Type 0 where
  ok : StepStatus
  empty : StepStatus
  skipped : StepStatus

pub record PlanExecutionNote : Type 0 where
  pub step_id : String
  pub step_type : String
  pub records_returned : ℕ
  pub status : StepStatus
  pub deviation : Option String

pub record CategoryCoverage : Type 0 where
  pub status : String
  pub record_count : ℕ
  pub note : Option String

pub record CoverageReport : Type 0 where
  pub historian : CategoryCoverage
  pub cmms : CategoryCoverage
  pub documents : CategoryCoverage
  pub operator_log : CategoryCoverage

pub record ScoredDocument : Type 0 where
  pub document_id : String
  pub title : String
  pub doc_type : Option String
  pub score : ℕ
  pub excerpt : Option String

pub record EvidencePackage : Type 0 where
  pub evidence_package_id : String
  pub canonical_id : String
  pub investigated_failure_modes : List String
  pub lookback_hours : ℕ
  pub asset_name : String
  pub equipment_class : String
  pub applicable_failure_modes : List (String × List String)
  pub tags : List Tag
  pub anomalies : List TagAnomaly
  pub anomaly_method : String
  pub work_orders : List String
  pub documents : List ScoredDocument
  pub score_method : String
  pub operator_logs : List String
  pub plan_execution_notes : List PlanExecutionNote
  pub coverage : CoverageReport
  pub provenance : List ProvenanceEntry
