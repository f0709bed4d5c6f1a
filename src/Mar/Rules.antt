-- ===== src/Mar/Rules.antt =====
-- packages/mar/src/rca_mar/pattern_rules.py, `apply_rules`. A rule's compiled pattern is what
-- `regex.search` answers on a text: the named group `tag`, if it took part, and the whole match.
pub mod Best
use industrial_rca.Prelude.{
  mem_text, ℕ, String, Bool, true, false, Option, none, some, List, [], ◌∷◌, ltb, str_eq,
  if◌then◌else◌,
}

pub record Hit : Type 0 where
  pub tag : Option String
  pub whole : String

pub record PatternRule : Type 0 where
  pub id : String
  pub search : String → Option Hit
  pub iso14224_class : String
  pub confidence : ℕ
  pub applies_to : String

pub record RuleMatch : Type 0 where
  pub rule_id : String
  pub iso14224_class : String
  pub confidence : ℕ
  pub matched : String

-- `m.groupdict().get("tag") or m.group(0)`.
unfoldable pub matched_text : Hit → String
matched_text hit = elim hit.tag [
  | none ↦ hit.whole
  | some tag ↦ if str_eq tag "" then hit.whole else tag
]

unfoldable pub match_of : PatternRule → Hit → RuleMatch
unfolding matched_text
match_of rule hit = record {
  rule_id = rule.id;
  iso14224_class = rule.iso14224_class;
  confidence = rule.confidence;
  matched = matched_text hit;
}

-- The two `continue`s of the loop: the rule is for other values, or its pattern does not match.
unfoldable pub hit_of : String → String → PatternRule → Option RuleMatch
unfolding match_of
hit_of value applies_to rule =
    if str_eq rule.applies_to applies_to
    then (elim (rule.search value) [ none ↦ none | some hit ↦ some (match_of rule hit) ])
    else none

abbrev pub beats : ℕ → Option RuleMatch → Bool
beats confidence none = true
beats confidence (some best) = ltb best.confidence confidence

unfoldable pub better : Option RuleMatch → Option RuleMatch → Option RuleMatch
better best none = best
better best (some m) = if beats m.confidence best then some m else best

unfoldable pub rules_loop : String → String → Option RuleMatch → List PatternRule → Option RuleMatch
rules_loop value applies_to best [] = best
rules_loop value applies_to best (rule ∷ rules) =
    rules_loop value applies_to (better best (hit_of value applies_to rule)) rules

-- `APPLIES_TO`.
unfoldable pub applies_to_words : List String
applies_to_words = "tag" ∷ "template" ∷ "name" ∷ "path" ∷ []

-- `ValueError`, or what the loop found.
pub data Applied : Type 0 where
  applied : Option RuleMatch → Applied
  value_error : Applied

unfoldable pub apply_rules : String → String → List PatternRule → Applied
unfolding rules_loop applies_to_words mem_text
apply_rules value applies_to rules =
    if mem_text applies_to applies_to_words
    then applied (rules_loop value applies_to none rules)
    else value_error
