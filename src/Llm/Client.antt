-- ===== src/Llm/Client.antt =====
-- packages/llm/src/rca_llm/client.py, `LLMClientImpl.complete`, over the cache of cache.py and the
-- audit of audit.py in memory, with `TokenBudget` of packages/contracts/src/rca_contracts/agent_io.py.
-- The registry of prompts, SHA-256, JSON, the model behind the transport, the clocks and the UUIDs are
-- arguments. A JSON object is its text.
pub mod Replay
use Prim.Native.String.{count}
use industrial_rca.Prelude.{
  ℕ, ◌+◌, ◌/◌, max, String, Bool, true, false, ◌||◌, Option, none, some, List, [], ◌∷◌, ◌++◌, ltb,
  string_eq,
}
use industrial_rca.Prelude.Dict.{Dict, get, put}

pub record TokenBudget : Type 0 where
  pub input_tokens_limit : ℕ
  pub output_tokens_limit : ℕ
  pub input_used : ℕ
  pub output_used : ℕ

unfoldable pub would_exceed : ℕ → ℕ → TokenBudget → Bool
would_exceed input_tokens output_tokens b =
    ltb b.input_tokens_limit (b.input_used + input_tokens)
    || ltb b.output_tokens_limit (b.output_used + output_tokens)

unfoldable pub charge : ℕ → ℕ → TokenBudget → TokenBudget
charge input_tokens output_tokens b = record b {
  input_used = b.input_used + input_tokens;
  output_used = b.output_used + output_tokens;
}

pub record Prompt : Type 0 where
  pub name : String
  pub version : String
  pub model : String
  pub temperature : ℕ
  pub max_tokens : ℕ
  pub variables : List String
  pub output_schema : Option String

pub record CompletionResult : Type 0 where
  pub content : String
  pub model_version : String
  pub input_tokens : ℕ
  pub output_tokens : ℕ

pub record LlmResponse : Type 0 where
  pub content : String
  pub structured : Option String
  pub model : String
  pub model_version : String
  pub prompt_hash : String
  pub input_tokens : ℕ
  pub output_tokens : ℕ
  pub latency_ms : ℕ
  pub cached : Bool
  pub llm_call_id : String

-- A value of the cache, with every key that the client writes.
pub record CachedResponse : Type 0 where
  pub content : String
  pub structured : Option String
  pub model : String
  pub model_version : String
  pub input_tokens : ℕ
  pub output_tokens : ℕ

pub record LlmCallRecord : Type 0 where
  pub response : LlmResponse
  pub correlation_id : String
  pub probe_run_id : Option String
  pub prompt_name : String
  pub prompt_version : String
  pub temperature : ℕ
  pub rendered_prompt : String
  pub variables_keys : List String
  pub created_at : ℕ

-- What the client is built on; `upstream` answers a result or the text of an exception.
pub record Services : Type 0 where
  pub get_prompt : String → String → Option Prompt
  pub render : Prompt → Dict String String → Option String
  pub sha256 : String → String
  pub upstream : Prompt → String → Option CompletionResult
  pub json_object : String → Option String
  pub latency : ℕ → ℕ
  pub new_id : ℕ → String
  pub now : ℕ → ℕ

-- The cache, the audit and the rendered prompts that went upstream.

pub record LlmState : Type 0 where
  pub cache : Dict String CachedResponse
  pub audit : List LlmCallRecord
  pub sent : List String

-- What a caller hands in besides the prompt and its variables.
pub record Call : Type 0 where
  pub correlation_id : String
  pub budget : Option TokenBudget
  pub probe_run_id : Option String
  pub replay_from_cache : Bool
  pub tick : ℕ

pub data Completed : Type 0 where
  answered : LlmResponse → Completed
  prompt_refused : Completed
  nothing_cached : Completed
  budget_exceeded : TokenBudget → Completed
  upstream_failed : Completed

unfoldable pub estimate_input_tokens : String → ℕ
estimate_input_tokens rendered = max 1 (count rendered / 4)

unfoldable pub parse_structured : Services → String → Option String → Option String
parse_structured s content none = none
parse_structured s content (some schema) = s.json_object content

unfoldable pub response_from_cache : Services → ℕ → CachedResponse → String → LlmResponse
response_from_cache s tick c hash = record {
  content = c.content;
  structured = c.structured;
  model = c.model;
  model_version = c.model_version;
  prompt_hash = hash;
  input_tokens = c.input_tokens;
  output_tokens = c.output_tokens;
  latency_ms = 0;
  cached = true;
  llm_call_id = s.new_id tick;
}

unfoldable pub record_call : Services → Call → Prompt → String → LlmResponse → LlmState → LlmState
record_call s call prompt rendered response st = record st {
  audit =
      st.audit
      ++ record {
        response = response;
        correlation_id = call.correlation_id;
        probe_run_id = call.probe_run_id;
        prompt_name = prompt.name;
        prompt_version = prompt.version;
        temperature = prompt.temperature;
        rendered_prompt = rendered;
        variables_keys = prompt.variables;
        created_at = s.now call.tick;
      }
        ∷ [];
}

abbrev pub is_over : Option TokenBudget → ℕ → ℕ → Option TokenBudget
is_over none i o = none
is_over (some b) i o = elim (would_exceed i o b) [ true ↦ some b | false ↦ none ]

abbrev pub charged : Option TokenBudget → CompletionResult → Option TokenBudget
charged none r = none
charged (some b) r = some (charge r.input_tokens r.output_tokens b)

unfoldable pub fresh_response : Services → ℕ → Prompt → String → CompletionResult → LlmResponse
unfolding parse_structured
fresh_response s tick prompt hash r = record {
  content = r.content;
  structured = parse_structured s r.content prompt.output_schema;
  model = prompt.model;
  model_version = r.model_version;
  prompt_hash = hash;
  input_tokens = r.input_tokens;
  output_tokens = r.output_tokens;
  latency_ms = s.latency tick;
  cached = false;
  llm_call_id = s.new_id tick;
}

unfoldable pub to_cache : LlmResponse → CachedResponse
to_cache r = record {
  content = r.content;
  structured = r.structured;
  model = r.model;
  model_version = r.model_version;
  input_tokens = r.input_tokens;
  output_tokens = r.output_tokens;
}

abbrev pub CompletionOutcome : Type 0
CompletionOutcome = Completed × (Option TokenBudget × LlmState)

-- The call of the transport, and what follows it.
unfoldable pub go_upstream :
    Services → Call → Prompt → String → String → LlmState → CompletionOutcome
unfolding fresh_response to_cache record_call
go_upstream s call prompt rendered hash st =
    let called : LlmState = record st { sent = st.sent ++ rendered ∷ [] } in
    elim (s.upstream prompt rendered) [
      | none ↦ (upstream_failed, (call.budget, called))
      | some result ↦
          let response : LlmResponse = fresh_response s call.tick prompt hash result in
          (
            answered response,
            (
              charged call.budget result,
              record_call s call prompt rendered response
                  (record called { cache = put hash (to_cache response) st.cache }),
            ),
          )
    ]

-- A miss of the cache: the replay promise, then the budget, then the call.
unfoldable pub on_miss : Services → Call → Prompt → String → String → LlmState → CompletionOutcome
unfolding go_upstream estimate_input_tokens would_exceed
on_miss s call prompt rendered hash st = elim call.replay_from_cache [
  | true ↦ (nothing_cached, (call.budget, st))
  | false ↦ elim (is_over call.budget (estimate_input_tokens rendered) prompt.max_tokens) [
    | some b ↦ (budget_exceeded b, (call.budget, st))
    | none ↦ go_upstream s call prompt rendered hash st
  ]
]

unfoldable pub complete_rendered : Services → Call → Prompt → String → LlmState → CompletionOutcome
unfolding on_miss response_from_cache record_call
complete_rendered s call prompt rendered st =
    let hash = s.sha256 rendered in
    elim (get hash st.cache) [
      | some c ↦
          let response : LlmResponse = response_from_cache s call.tick c hash in
          (answered response, (call.budget, record_call s call prompt rendered response st))
      | none ↦ on_miss s call prompt rendered hash st
    ]

unfoldable pub complete :
    Services → String → String → Dict String String → Call → LlmState → CompletionOutcome
unfolding complete_rendered
complete s name version variables call st = elim (s.get_prompt name version) [
  | none ↦ (prompt_refused, (call.budget, st))
  | some prompt ↦ elim (s.render prompt variables) [
    | none ↦ (prompt_refused, (call.budget, st))
    | some rendered ↦ complete_rendered s call prompt rendered st
  ]
]
