-- ===== src/Agents/Gather/Steps.antt =====
-- packages/agents/src/rca_agents/gather_graph.py, `_execute_steps`: each step of the plan through its
-- tool. An exception makes the step a skipped one.
use industrial_rca.Prelude.{
  ℕ, suc, String, none, some, List, [], ◌∷◌, ◌++◌, length, str_eq, ◌==◌, if◌then◌else◌,
}
use industrial_rca.Agents.Contracts.{Raising, returned, raised, PlanStep, or_else}
use industrial_rca.Agents.Gather.{
  ProvenanceEntry, AssetContext, GatherContext, Raw, ok, empty, skipped, PlanExecutionNote,
}

abbrev pub no_rows : Raw
no_rows = record { tags = []; work_orders = []; documents = []; operator_logs = []; context = none }

-- What `_execute_steps` keeps.
pub record Executed : Type 0 where
  pub raw : Raw
  pub notes : List PlanExecutionNote
  pub provenance : List ProvenanceEntry

-- What a step did to the rows: their count and the provenance, or the text of an exception.
pub data StepResult : Type 0 where
  fetched : Raw → ℕ → List ProvenanceEntry → StepResult
  failed : String → StepResult

abbrev pub put_rows {ℓ} :
    {A : Type ℓ} → Raising (List A × ProvenanceEntry) → (List A → Raw) → StepResult
put_rows (returned (rows, prov)) store = fetched (store rows) (length rows) (prov ∷ [])
put_rows (raised e) store = failed e

abbrev pub put_context : Raising AssetContext → (AssetContext → Raw) → StepResult
put_context (returned c) store = fetched (store c) 1 []
put_context (raised e) store = failed e

-- The body of the `try`.
unfoldable pub call_tool : GatherContext → String → ℕ → ℕ → PlanStep → Raw → StepResult
call_tool ctx cid lookback i step raw =
    if str_eq step.step_type "tag_history"
    then put_rows (ctx.toolbox.tag_history i cid lookback) (λ rows. record raw { tags = rows })
    else if str_eq step.step_type "work_orders"
    then put_rows (ctx.toolbox.work_orders_for_asset i cid)
        (λ rows. record raw { work_orders = rows })
    else if str_eq step.step_type "documents"
    then put_rows
        (ctx.toolbox.documents_for_asset i cid
          (or_else (ctx.parameter step.parameters "query") "failure"))
        (λ rows. record raw { documents = rows })
    else if str_eq step.step_type "operator_logs"
    then put_rows (ctx.toolbox.operator_logs_for_asset i cid lookback)
        (λ rows. record raw { operator_logs = rows })
    else if str_eq step.step_type "kg_query"
    then put_context (ctx.toolbox.get_asset_context i cid) (λ c. record raw { context = some c })
    else fetched raw 0 []

unfoldable pub note_of : GatherContext → PlanStep → StepResult → PlanExecutionNote
note_of ctx step (fetched raw count prov) = record {
  step_id = step.step_id;
  step_type = step.step_type;
  records_returned = count;
  status = if count == 0 then empty else ok;
  deviation = none;
}
note_of ctx step (failed e) = record {
  step_id = step.step_id;
  step_type = step.step_type;
  records_returned = 0;
  status = skipped;
  deviation = some (ctx.cut_to_200 e);
}

abbrev pub rows_after : Raw → StepResult → Raw
rows_after raw (fetched after count prov) = after
rows_after raw (failed e) = raw

abbrev pub provenance_of : StepResult → List ProvenanceEntry
provenance_of (fetched after count prov) = prov
provenance_of (failed e) = []

-- The loop over the steps, numbered from `i`.
unfoldable pub execute_steps : GatherContext → String → ℕ → ℕ → List PlanStep → Executed → Executed
unfolding call_tool note_of
execute_steps ctx cid lookback i [] done = done
execute_steps ctx cid lookback i (step ∷ steps) done =
    let result = call_tool ctx cid lookback i step done.raw in
    execute_steps ctx cid lookback (suc i) steps (record {
      raw = rows_after done.raw result;
      notes = done.notes ++ (note_of ctx step result ∷ []);
      provenance = done.provenance ++ provenance_of result;
    })
