-- ===== src/Agents/Gather/Anomalies.antt =====
-- packages/agents/src/rca_agents/gather_graph.py, `_detect_anomalies`: the anomalies of the tags, by the
-- model or by the rule.
use industrial_rca.Prelude.{
  ℕ, ◌*◌, String, Bool, true, false, ◌||◌, not, Option, none, some, List, [], ◌∷◌, mem_text, str_eq,
  ltb, ◌==◌, if◌then◌else◌, ◌&&◌,
}
use industrial_rca.Agents.Contracts.{Raising, returned, raised, TokenUsage, no_usage, or_else}
use industrial_rca.Agents.Gather.{Tag, TagAnomaly, AnomalyReply, GatherContext}

-- `sev in {"elevated", "critical"} or (mean and max and max > 1.5 * mean)`.
abbrev above_mean : Option ℕ → Option ℕ → Bool
above_mean (some mean) (some max) = not (mean == 0) && (not (max == 0) && ltb (3 * mean) (2 * max))
above_mean _ _ = false

unfoldable pub elevated : Tag → Bool
elevated t =
    mem_text (or_else t.severity "") ("elevated" ∷ "critical" ∷ []) || above_mean t.mean t.max

-- `sev or "elevated"`.
abbrev severity_or : Option String → String
severity_or none = "elevated"
severity_or (some s) = if str_eq s "" then "elevated" else s

unfoldable pub rule_3sigma : List Tag → List TagAnomaly
unfolding elevated
rule_3sigma [] = []
rule_3sigma (t ∷ tags) =
    let rest = rule_3sigma tags in
    elim (elevated t) [
      | true ↦
          record {
            tag_name = t.tag_name;
            role = t.role;
            summary = or_else t.summary "out-of-band";
            severity = some (severity_or t.severity);
          }
          ∷ rest
      | false ↦ rest
    ]

pub record Detected : Type 0 where
  pub anomalies : List TagAnomaly
  pub method : String
  pub usage : TokenUsage
  pub llm_call_ids : List String

abbrev by_rule : List Tag → Detected
by_rule tags = record {
  anomalies = rule_3sigma tags;
  method = "rule:3sigma";
  usage = no_usage;
  llm_call_ids = [];
}

-- The model's anomalies, if it found any; the rule where it did not answer or found none.
abbrev model_or_rule : List Tag → Raising AnomalyReply → Detected
model_or_rule tags (raised e) = by_rule tags
model_or_rule tags (returned r) = elim r.anomalies [
  | none ↦ by_rule tags
  | some found ↦ elim found [
    | [] ↦ by_rule tags
    | ◌∷◌ a more ↦ record {
      anomalies = a ∷ more;
      method = "llm_v1";
      usage = r.usage;
      llm_call_ids = r.llm_call_id ∷ [];
    }
  ]
]

unfoldable pub detect_anomalies : GatherContext → List Tag → Detected
unfolding rule_3sigma
detect_anomalies ctx [] = record {
  anomalies = [];
  method = "rule:3sigma";
  usage = no_usage;
  llm_call_ids = [];
}
detect_anomalies ctx (t ∷ tags) = model_or_rule (t ∷ tags) (ctx.detect_tag_anomalies (t ∷ tags))
