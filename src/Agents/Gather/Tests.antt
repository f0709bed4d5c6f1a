-- ===== src/Agents/Gather/Tests.antt =====
-- The theorems of the gathering at concrete inputs.
use industrial_rca.Prelude.{
  String, Bool, true, false, ◌≡◌, ◌⊎◌, refl, none, some, [], ◌∷◌, str_eq, arith,
}
use industrial_rca.Agents.Contracts.{returned, raised, TokenUsage, no_usage, InvestigationPlan}
use industrial_rca.Agents.Bridge.{LegResult, Run, finished, stopped, run_agent}
use industrial_rca.Agents.Gather.{
  ToolBox, GatherContext, AssetContext, ProvenanceEntry, EvidencePackage,
}
use industrial_rca.Agents.Gather.Steps.{no_rows}
use industrial_rca.Agents.Gather.Legs.{GatherState, gather_leg}
use industrial_rca.Agents.Gather.Window.{IsFaithful, HasNoTags, gather_ends, gather_asks}
use industrial_rca.Agents.Analysis.Tests.{answer_of}

abbrev provenance : ProvenanceEntry
provenance = record {
  section = "tag";
  connection_id = some "c-1";
  tool_name = "tag.get_history";
  record_count = 0;
}

abbrev asset_context : AssetContext
asset_context = record {
  iso14224_class = some "pump";
  applicable_failure_modes = ("ELP", "mech-1" ∷ []) ∷ [];
  asset_name = some "P-101";
}

-- A historian without rows, and a store of documents that is down.
abbrev toolbox : ToolBox
toolbox = record {
  tag_history = λ i cid hours. returned ([], provenance);
  work_orders_for_asset = λ i cid. returned ("wo-1" ∷ [], provenance);
  documents_for_asset = λ i cid query. raised "ConnectionError";
  operator_logs_for_asset = λ i cid hours. returned ([], provenance);
  get_asset_context = λ i cid. returned asset_context;
  failure_modes_for_class = λ c. returned [];
  upsert_asset = λ cid name c. returned true;
  link_failure_mode = λ cid code. returned true;
  search_documents_by_vector = λ c v n. raised "ConnectionError";
}

abbrev pub context : GatherContext
context = record {
  toolbox = toolbox;
  detect_tag_anomalies = λ tags. raised "TokenBudgetExceeded";
  embed = λ t. raised "ConnectionError";
  det_uuid = λ parts. "evidence-1";
  parameter = λ json key. none;
  cut_to_200 = λ t. t;
  lower = λ t. t;
  upper = λ t. t;
  split = λ t. t ∷ [];
  last_part = λ t. t;
  holds = λ t text. str_eq t text;
  rounded = λ a b. a;
  is_canonical = λ t. true;
}

abbrev pub plan : InvestigationPlan
plan = record {
  version = 1;
  asset_canonical_id = "asset:gc:u1:p-101";
  candidate_failure_modes = [];
  steps =
      record {
        step_id = "s-1";
        step_type = "work_orders";
        description = "List recent work orders";
        parameters = "{}";
        rationale = "";
        estimated_cost = none;
      }
      ∷ record {
        step_id = "s-2";
        step_type = "documents";
        description = "Search asset documents";
        parameters = "{}";
        rationale = "";
        estimated_cost = none;
      }
      ∷ [];
  finalized_at = none;
  engineer_notes = none;
}

abbrev before : GatherState
before = record {
  plan = plan;
  awaiting_scope = false;
  lookback_hours = 168;
  window_extended = false;
  raw = no_rows;
  evidence_package_id = none;
}

abbrev gathering : Run GatherState EvidencePackage
gathering = run_agent (λ n used. gather_leg context) (some (answer_of true) ∷ []) no_usage before

gather_ends_example :
    ((pkg : EvidencePackage) × (total : TokenUsage) × (gathering ≡ finished pkg total)
      × IsFaithful plan 168 pkg)
    ⊎ ((e : String) × (at : TokenUsage) × (gathering ≡ stopped e at))
gather_ends_example =
    gather_ends (λ n used. context) (some (answer_of true) ∷ []) no_usage before (omega arith)

gather_asks_example :
    (waits : LegResult GatherState EvidencePackage) × (gather_leg context none before
      ≡ returned waits)
    × (waits.final_output ≡ none)
    × (waits.graph_state.awaiting_scope ≡ true)
    × HasNoTags (gather_leg context (some (answer_of true)) waits.graph_state)
gather_asks_example = gather_asks context context before (answer_of true) (refl, (refl, tt)) refl

abbrev is_finished : Run GatherState EvidencePackage → Bool
is_finished (finished pkg total) = true
is_finished _ = false

gathering_run : is_finished gathering ≡ true
unfolding run_agent gather_leg
gathering_run = refl
