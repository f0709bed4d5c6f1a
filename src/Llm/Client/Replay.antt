-- ===== src/Llm/Client/Replay.antt =====
-- packages/llm/src/rca_llm/client.py: a call that was answered is answered again from the cache.
use industrial_rca.Prelude.{
  String, Bool, true, false, ◌≡◌, refl, sym, ap, ◌∙◌, subst, Option, none, some, [], ◌∷◌, ◌++◌,
  Option-cases, inl, inr, string_eq,
}
use industrial_rca.Prelude.Dict.{Dict, get, get-put_self}
use industrial_rca.Llm.Client.{
  Services, Call, Prompt, LlmState, LlmResponse, LlmCallRecord, CompletionOutcome, TokenBudget,
  answered, nothing_cached, budget_exceeded, is_over, estimate_input_tokens, to_cache,
  fresh_response, response_from_cache, record_call, go_upstream, on_miss, complete_rendered,
  complete,
}

abbrev response_or : LlmResponse → CompletionOutcome → LlmResponse
response_or d (answered r, _) = r
response_or d _ = d

abbrev is_answer : CompletionOutcome → Bool
is_answer (answered r, _) = true
is_answer _ = false

-- The outcome is no answer.
no_answer :
    (o : CompletionOutcome) (r : LlmResponse) (rest : Option TokenBudget × LlmState)
    → is_answer o ≡ false
    → o ≡ (answered r, rest)
    → ⊥
no_answer o r rest f e = let c : false ≡ true = sym f ∙ ap is_answer e in cc

-- Under the hash of the prompt, the cache holds what the answer says.
abbrev IsKept : String → CompletionOutcome → Type 0
IsKept hash (answered r, (_, st)) = (get hash st.cache ≡ some (to_cache r)) × (r.prompt_hash ≡ hash)
IsKept hash _ = Unit

upstream-IsKept :
    (s : Services) (call : Call) (prompt : Prompt) (rendered hash : String) (st : LlmState)
    → IsKept hash (go_upstream s call prompt rendered hash st)
unfolding go_upstream record_call fresh_response to_cache
upstream-IsKept s call prompt rendered hash st = elim (Option-cases (s.upstream prompt rendered)) [
  | inl n ↦ rw (n, go_upstream) tt
  | inr (result, e) ↦
      rw (e, go_upstream)
        (
          get-put_self hash (to_cache (fresh_response s call.tick prompt hash result)) st.cache,
          refl,
        )
]

miss-IsKept :
    (s : Services) (call : Call) (prompt : Prompt) (rendered hash : String) (st : LlmState)
    → IsKept hash (on_miss s call prompt rendered hash st)
unfolding on_miss
miss-IsKept s call prompt rendered hash st =
    by_replay call.replay_from_cache
      (is_over call.budget (estimate_input_tokens rendered) prompt.max_tokens)
  where
    by_replay :
        (b : Bool) (o : Option TokenBudget)
        → IsKept hash (elim b [
          | true ↦ (nothing_cached, (call.budget, st))
          | false ↦ elim o [
            | some b ↦ (budget_exceeded b, (call.budget, st))
            | none ↦ go_upstream s call prompt rendered hash st
          ]
        ])
    by_replay true o = tt
    by_replay false (some b) = tt
    by_replay false none = upstream-IsKept s call prompt rendered hash st

rendered-IsKept :
    (s : Services) (call : Call) (prompt : Prompt) (rendered : String) (st : LlmState)
    → IsKept (s.sha256 rendered) (complete_rendered s call prompt rendered st)
unfolding complete_rendered response_from_cache record_call to_cache
rendered-IsKept s call prompt rendered st = elim (Option-cases (get (s.sha256 rendered) st.cache)) [
  | inl n ↦ rw (n, complete_rendered) (miss-IsKept s call prompt rendered (s.sha256 rendered) st)
  | inr (c, e) ↦ rw (e, complete_rendered) (e, refl)
]

opened :
    (s : Services) (name version : String) (variables : Dict String String) (call : Call)
    (st : LlmState) (prompt : Prompt) (rendered : String)
    → s.get_prompt name version ≡ some prompt
    → s.render prompt variables ≡ some rendered
    → complete s name version variables call st ≡ complete_rendered s call prompt rendered st
unfolding complete
opened s name version variables call st prompt rendered e f =
    rw (e, complete) (rw (f, complete) refl)

unopened :
    (s : Services) (name version : String) (variables : Dict String String) (call : Call)
    (st : LlmState)
    → s.get_prompt name version ≡ none
    → is_answer (complete s name version variables call st) ≡ false
unfolding complete
unopened s name version variables call st e = rw (e, complete) refl

unrendered :
    (s : Services) (name version : String) (variables : Dict String String) (call : Call)
    (st : LlmState) (prompt : Prompt)
    → s.get_prompt name version ≡ some prompt
    → s.render prompt variables ≡ none
    → is_answer (complete s name version variables call st) ≡ false
unfolding complete
unrendered s name version variables call st prompt e f = rw (e, complete) (rw (f, complete) refl)

hit :
    (s : Services) (call : Call) (prompt : Prompt) (rendered : String) (st : LlmState)
    (r : LlmResponse)
    → get (s.sha256 rendered) st.cache ≡ some (to_cache r)
    → let again = response_from_cache s call.tick (to_cache r) (s.sha256 rendered) in
      complete_rendered s call prompt rendered st
      ≡ (answered again, (call.budget, record_call s call prompt rendered again st))
unfolding complete_rendered
hit s call prompt rendered st r e = rw (e, complete_rendered) refl

-- When a call of `complete` is answered, a later call with the same prompt and variables in the state
-- that it left is answered too, whatever its budget and whether or not it is a replay. The second
-- answer is marked as cached and has the content, the structure, the model with its version, the token counts
-- and the prompt hash of the first; nothing goes upstream, nothing is charged, the cache stays, and one entry
-- is added to the audit.
pub complete_replays :
    (s : Services) (name version : String) (variables : Dict String String) (call again : Call)
    (st after : LlmState) (r : LlmResponse) (b : Option TokenBudget)
    → complete s name version variables call st ≡ (answered r, (b, after))
    → (second : LlmResponse) × (entry : LlmCallRecord) × (complete s name version variables again
          after
        ≡ (answered second, (again.budget, record after { audit = after.audit ++ entry ∷ [] })))
      × (second.content ≡ r.content)
      × (second.structured ≡ r.structured)
      × (second.model ≡ r.model)
      × (second.model_version ≡ r.model_version)
      × (second.input_tokens ≡ r.input_tokens)
      × (second.output_tokens ≡ r.output_tokens)
      × (second.prompt_hash ≡ r.prompt_hash)
      × (second.cached ≡ true)
unfolding response_from_cache record_call to_cache
complete_replays s name version variables call again st after r b h =
    elim (Option-cases (s.get_prompt name version)) [
      | inl n ↦ absurd (no_answer _ r (b, after) (unopened s name version variables call st n) h)
      | inr (prompt, e) ↦ elim (Option-cases (s.render prompt variables)) [
        | inl n ↦
            absurd
              (no_answer _ r (b, after) (unrendered s name version variables call st prompt e n) h)
        | inr (rendered, f) ↦
            let kept : IsKept (s.sha256 rendered) (answered r, (b, after)) =
              subst (IsKept (s.sha256 rendered))
                (sym (opened s name version variables call st prompt rendered e f) ∙ h)
                (rendered-IsKept s call prompt rendered st) in
            (
              response_from_cache s again.tick (to_cache r) (s.sha256 rendered),
              _,
              opened s name version variables again after prompt rendered e f
                  ∙ hit s again prompt rendered after r kept.0,
              refl,
              refl,
              refl,
              refl,
              refl,
              refl,
              sym kept.1,
              refl,
            )
      ]
    ]
