-- ===== src/Agents/Gather/Coverage.antt =====
-- packages/agents/src/rca_agents/gather_graph.py: what the steps leave, whatever the tools answer.
use industrial_rca.Prelude.{
  ℕ, suc, String, false, ◌≡◌, refl, sym, ap, ◌∙◌, List, [], ◌∷◌, ◌++◌, map, str_eq, All, Bool-cases,
  inl, inr, some,
}
use mathlib.Core.List.{append_assoc, append-nil}
use industrial_rca.Agents.Contracts.{PlanStep, Raising, returned, raised}
use industrial_rca.Agents.Gather.{
  ProvenanceEntry, AssetContext, GatherContext, Raw, PlanExecutionNote,
}
use industrial_rca.Agents.Gather.Steps.{
  Executed, StepResult, fetched, failed, call_tool, note_of, put_rows, put_context, rows_after,
  execute_steps,
}

abbrev pub noted_step : PlanExecutionNote → String × String
noted_step n = (n.step_id, n.step_type)

abbrev pub planned_step : PlanStep → String × String
planned_step s = (s.step_id, s.step_type)

note_names :
    (ctx : GatherContext) (step : PlanStep) (r : StepResult)
    → noted_step (note_of ctx step r) ≡ planned_step step
unfolding note_of
note_names ctx step (fetched raw count prov) = refl
note_names ctx step (failed e) = refl

map-append {ℓ κ} :
    {A : Type ℓ} {B : Type κ} (f : A → B) (xs ys : List A) → map f (xs ++ ys) ≡ map f xs ++ map f ys
map-append f [] ys = refl
map-append f (x ∷ xs) ys = ap (◌∷◌ (f x)) (map-append f xs ys)

-- A note for each step of the plan, in order.
pub execute_steps-notes :
    (ctx : GatherContext) (cid : String) (lookback i : ℕ) (steps : List PlanStep) (done : Executed)
    → map noted_step (execute_steps ctx cid lookback i steps done).notes
      ≡ map noted_step done.notes ++ map planned_step steps
unfolding execute_steps
execute_steps-notes ctx cid lookback i [] done = sym (append-nil _)
execute_steps-notes ctx cid lookback i (step ∷ steps) done =
    let result = call_tool ctx cid lookback i step done.raw in
    execute_steps-notes ctx cid lookback (suc i) steps _
    ∙ ap (λ t. t ++ map planned_step steps)
        (map-append noted_step done.notes (note_of ctx step result ∷ [])
          ∙ ap (λ t. map noted_step done.notes ++ (t ∷ [])) (note_names ctx step result))
    ∙ append_assoc (map noted_step done.notes) (planned_step step ∷ []) (map planned_step steps)

-- A step of another type leaves the tags alone.
put_rows-tags {ℓ} :
    {A : Type ℓ} (r : Raising (List A × ProvenanceEntry)) (store : List A → Raw) (raw : Raw)
    → ((rows : List A) → (store rows).tags ≡ raw.tags)
    → (rows_after raw (put_rows r store)).tags ≡ raw.tags
put_rows-tags (returned (rows, prov)) store raw k = k rows
put_rows-tags (raised e) store raw k = refl

put_context-tags :
    (r : Raising AssetContext) (raw : Raw)
    → (rows_after raw (put_context r (λ c. record raw { context = some c }))).tags ≡ raw.tags
put_context-tags (returned c) raw = refl
put_context-tags (raised e) raw = refl

call_tool-tags :
    (ctx : GatherContext) (cid : String) (lookback i : ℕ) (step : PlanStep) (raw : Raw)
    → str_eq step.step_type "tag_history" ≡ false
    → (rows_after raw (call_tool ctx cid lookback i step raw)).tags ≡ raw.tags
unfolding call_tool
call_tool-tags ctx cid lookback i step raw h =
    elim (Bool-cases (str_eq step.step_type "work_orders")) [
      | inl a ↦ rw (h, a, call_tool) (put_rows-tags _ _ raw (λ rows. refl))
      | inr a ↦ elim (Bool-cases (str_eq step.step_type "documents")) [
        | inl b ↦ rw (h, a, b, call_tool) (put_rows-tags _ _ raw (λ rows. refl))
        | inr b ↦ elim (Bool-cases (str_eq step.step_type "operator_logs")) [
          | inl c ↦ rw (h, a, b, c, call_tool) (put_rows-tags _ _ raw (λ rows. refl))
          | inr c ↦ elim (Bool-cases (str_eq step.step_type "kg_query")) [
            | inl d ↦ rw (h, a, b, c, d, call_tool) (put_context-tags _ raw)
            | inr d ↦ rw (h, a, b, c, d, call_tool) refl
          ]
        ]
      ]
    ]

-- Without a step for the tag history there are no tags.
pub execute_steps-no_tags :
    (ctx : GatherContext) (cid : String) (lookback i : ℕ) (steps : List PlanStep) (done : Executed)
    → All (λ s. str_eq s.step_type "tag_history" ≡ false) steps
    → (execute_steps ctx cid lookback i steps done).raw.tags ≡ done.raw.tags
unfolding execute_steps
execute_steps-no_tags ctx cid lookback i [] done h = refl
execute_steps-no_tags ctx cid lookback i (step ∷ steps) done h =
    execute_steps-no_tags ctx cid lookback (suc i) steps _ h.1
    ∙ call_tool-tags ctx cid lookback i step done.raw h.0
