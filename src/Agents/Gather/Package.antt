-- ===== src/Agents/Gather/Package.antt =====
-- packages/agents/src/rca_agents/gather_graph.py, `_assemble`: the package that is made of the rows, with
-- its coverage.
use industrial_rca.Prelude.{
  ℕ, String, Bool, true, false, Option, none, some, List, [], ◌∷◌, map, take, length, mem_text,
  str_eq, ◌==◌, if◌then◌else◌, ◌&&◌,
}
use industrial_rca.Agents.Contracts.{
  Raising, returned, raised, ◌>>=◌, TokenUsage, no_usage, merged_with, InvestigationPlan,
  FailureModeCandidate, or_else,
}
use industrial_rca.Agents.Gather.{
  ProvenanceEntry, AssetContext, GatherContext, Raw, StepStatus, skipped, PlanExecutionNote,
  CategoryCoverage, CoverageReport, EvidencePackage,
}
use industrial_rca.Agents.Gather.Steps.{Executed}
use industrial_rca.Agents.Gather.Documents.{score_documents}
use industrial_rca.Agents.Gather.Anomalies.{detect_anomalies}

-- `{n.step_type: n for n in notes if n.status == "skipped"}`: the last one of a type.
abbrev is_skipped : StepStatus → Bool
is_skipped skipped = true
is_skipped _ = false

abbrev later_or : Option PlanExecutionNote → Option PlanExecutionNote → Option PlanExecutionNote
later_or (some n) earlier = some n
later_or none earlier = earlier

unfoldable pub skipped_note : String → List PlanExecutionNote → Option PlanExecutionNote
skipped_note step_type [] = none
skipped_note step_type (n ∷ notes) =
    later_or (skipped_note step_type notes)
      (if str_eq n.step_type step_type && is_skipped n.status then some n else none)

unfoldable pub cov : List PlanExecutionNote → String → ℕ → CategoryCoverage
unfolding skipped_note
cov notes step_type n = elim (skipped_note step_type notes) [
  | some note ↦ record {
    status = "skipped:connection_unhealthy";
    record_count = 0;
    note = note.deviation;
  }
  | none ↦ record { status = if n == 0 then "empty" else "ok"; record_count = n; note = none }
]

unfoldable pub coverage : Raw → List PlanExecutionNote → CoverageReport
unfolding cov
coverage raw notes = record {
  historian = cov notes "tag_history" (length raw.tags);
  cmms = cov notes "work_orders" (length raw.work_orders);
  documents = cov notes "documents" (length raw.documents);
  operator_log = cov notes "operator_logs" (length raw.operator_logs);
}

-- Links the failure modes that are applicable, one after another.
unfoldable pub link_modes : GatherContext → String → List String → List String → Raising (Unit {0})
link_modes ctx cid valid [] = returned tt
link_modes ctx cid valid (code ∷ codes) =
    let rest = link_modes ctx cid valid codes in
    elim (mem_text code valid) [
      | true ↦ ctx.toolbox.link_failure_mode cid code >>= λ linked. rest
      | false ↦ rest
    ]

-- The connection of the first search for documents.
unfoldable pub document_connection : List ProvenanceEntry → Option String
document_connection [] = none
document_connection (p ∷ provenance) =
    if str_eq p.tool_name "document.search_for_asset"
    then p.connection_id
    else document_connection provenance

abbrev pub context_or : Option AssetContext → Raising AssetContext → Raising AssetContext
context_or (some c) other = returned c
context_or none other = other

-- `if not equipment_class: raise`.
abbrev pub class_of : Option String → Raising String
class_of none = raised "ValueError"
class_of (some c) = if str_eq c "" then raised "ValueError" else returned c

abbrev pub modes_or :
    List (String × List String) → List (String × List String) → List (String × List String)
modes_or [] other = other
modes_or (m ∷ modes) other = m ∷ modes

abbrev pub code_of : FailureModeCandidate → String
code_of c = c.iso14224_code

pub record Assembled : Type 0 where
  pub pkg : EvidencePackage
  pub usage : TokenUsage
  pub llm_call_ids : List String

-- The package, once everything was asked for.
unfoldable pub package_of :
    GatherContext
    → InvestigationPlan
    → Executed
    → ℕ
    → String
    → String
    → List (String × List String)
    → Assembled
unfolding detect_anomalies score_documents document_connection coverage
package_of ctx plan e lookback asset_name equipment_class applicable =
    let found = detect_anomalies ctx e.raw.tags in
    let (docs, method) =
      score_documents ctx e.raw.documents plan (document_connection e.provenance) in
    record {
      pkg = record {
        evidence_package_id = ctx.det_uuid ("evidence" ∷ []);
        canonical_id = plan.asset_canonical_id;
        investigated_failure_modes = map code_of (take 3 plan.candidate_failure_modes);
        lookback_hours = lookback;
        asset_name = asset_name;
        equipment_class = equipment_class;
        applicable_failure_modes = applicable;
        tags = e.raw.tags;
        anomalies = found.anomalies;
        anomaly_method = found.method;
        work_orders = e.raw.work_orders;
        documents = docs;
        score_method = method;
        operator_logs = e.raw.operator_logs;
        plan_execution_notes = e.notes;
        coverage = coverage e.raw e.notes;
        provenance = e.provenance;
      };
      usage = merged_with no_usage found.usage;
      llm_call_ids = found.llm_call_ids;
    }

-- `parse_canonical_id` in `_location`, of which the package here does not keep the result.
abbrev pub located : Bool → Raising (Unit {0})
located true = returned tt
located false = raised "ValueError"

-- `materialize_kg`, then the package.
unfoldable pub materialize :
    GatherContext
    → InvestigationPlan
    → Executed
    → ℕ
    → AssetContext
    → String
    → List (String × List String)
    → Raising Assembled
unfolding link_modes package_of
materialize ctx plan e lookback context equipment_class modes =
    let applicable = modes_or modes context.applicable_failure_modes in
    let asset_name =
      or_else context.asset_name (ctx.upper (ctx.last_part plan.asset_canonical_id)) in
    ctx.toolbox.upsert_asset plan.asset_canonical_id asset_name equipment_class >>= λ upserted.
    link_modes ctx plan.asset_canonical_id (map (λ (m : String × List String). m.0) applicable)
      (map code_of (take 3 plan.candidate_failure_modes))
    >>= λ linked. located (ctx.is_canonical plan.asset_canonical_id) >>= λ place.
        returned (package_of ctx plan e lookback asset_name equipment_class applicable)

-- The class, the failure modes and the package.
unfoldable pub with_class :
    GatherContext → InvestigationPlan → Executed → ℕ → AssetContext → String → Raising Assembled
unfolding materialize
with_class ctx plan e lookback context equipment_class =
    ctx.toolbox.failure_modes_for_class equipment_class >>= λ modes.
    materialize ctx plan e lookback context equipment_class modes

unfoldable pub with_context :
    GatherContext → InvestigationPlan → Executed → ℕ → AssetContext → Raising Assembled
unfolding with_class
with_context ctx plan e lookback context = class_of context.iso14224_class >>= λ equipment_class.
    with_class ctx plan e lookback context equipment_class

-- The call of `get_asset_context` is none of a step.
unfoldable pub assemble : GatherContext → InvestigationPlan → Executed → ℕ → Raising Assembled
unfolding with_context
assemble ctx plan e lookback =
    context_or e.raw.context
      (ctx.toolbox.get_asset_context (length plan.steps) plan.asset_canonical_id)
    >>= λ context. with_context ctx plan e lookback context
