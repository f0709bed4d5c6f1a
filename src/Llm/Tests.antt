-- ===== src/Llm/Tests.antt =====
-- The theorem of the client at a concrete call.
use industrial_rca.Prelude.{true, false, ◌≡◌, refl, none, some, [], ◌∷◌, ◌++◌, string_eq}
use industrial_rca.Prelude.Dict.{get, put}
use industrial_rca.Llm.Client.{
  Services, Call, Prompt, LlmState, LlmResponse, LlmCallRecord, answered, complete, TokenBudget,
  would_exceed, charge,
}
use industrial_rca.Llm.Client.Replay.{complete_replays}

abbrev plan : Prompt
plan = record {
  name = "plan";
  version = "1.0.0";
  model = "m";
  temperature = 0;
  max_tokens = 20;
  variables = [];
  output_schema = some "{\"type\": \"object\"}";
}

abbrev services : Services
services = record {
  get_prompt = λ n v. some plan;
  render = λ p d. some "Plan the probe.";
  sha256 = λ t. t;
  upstream = λ p t.
      some (record { content = "{}"; model_version = "m-1"; input_tokens = 4; output_tokens = 2 });
  json_object = λ t. some t;
  latency = λ n. 7;
  new_id = λ n. "id";
  now = λ n. n;
}

abbrev budget : TokenBudget
budget = record {
  input_tokens_limit = 50;
  output_tokens_limit = 30;
  input_used = 0;
  output_used = 0;
}

abbrev live : Call
live = record {
  correlation_id = "c";
  budget = some budget;
  probe_run_id = none;
  replay_from_cache = false;
  tick = 1;
}

abbrev replay : Call
replay = record live { replay_from_cache = true; tick = 2 }

abbrev fresh : LlmState
fresh = record { cache = []; audit = []; sent = [] }

abbrev reply : LlmResponse
reply = record {
  content = "{}";
  structured = some "{}";
  model = "m";
  model_version = "m-1";
  prompt_hash = "Plan the probe.";
  input_tokens = 4;
  output_tokens = 2;
  latency_ms = 7;
  cached = false;
  llm_call_id = "id";
}

abbrev left : LlmState
left = (complete services "plan" "1.0.0" [] live fresh).1.1

complete_replays_example :
    (second : LlmResponse) × (entry : LlmCallRecord) × (complete services "plan" "1.0.0" [] replay
        left
      ≡ (answered second, (some budget, record left { audit = left.audit ++ entry ∷ [] })))
    × (second.content ≡ "{}")
    × (second.structured ≡ some "{}")
    × (second.model ≡ "m")
    × (second.model_version ≡ "m-1")
    × (second.input_tokens ≡ 4)
    × (second.output_tokens ≡ 2)
    × (second.prompt_hash ≡ "Plan the probe.")
    × (second.cached ≡ true)
unfolding complete get put would_exceed charge
complete_replays_example =
    complete_replays services "plan" "1.0.0" [] live replay fresh left reply
      (some (record budget { input_used = 4; output_used = 2 })) refl
