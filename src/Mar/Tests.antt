-- ===== src/Mar/Tests.antt =====
-- Runs of the Master Asset Registry on one pump with two aliases, and the theorems at them.
use industrial_rca.Prelude.{
  mem_text, ℕ, String, ◌≡◌, refl, true, Option, none, some, List, [], ◌∷◌, arith, string_eq, inl,
  ◌≤◌, ◌⊎◌,
}
use industrial_rca.Prelude.Dict.{get}
use industrial_rca.Mar.Rows.{
  AliasRow, AssetDescriptor, ResolutionStatus, auto_resolved, human_validated, rejected,
  pending_review,
}
use industrial_rca.Mar.Repository.{InMemoryRepository}
use industrial_rca.Mar.Repository.Aliases.{
  find_active_alias, upsert_alias, stored_alias, in_force, about, close_for, get_alias,
}
use industrial_rca.Mar.Repository.Aliases.History.{
  find-upsert_alias, upsert_alias-keeps_history, asset_of,
}
use industrial_rca.Mar.Repository.Aliases.Reviews.{
  review_all-IsClosed, review_all, IsClosed, Verb, validate, supersede,
}
use industrial_rca.Mar.Rules.{applies_to_words, PatternRule, RuleMatch, apply_rules, hit_of, better}
use industrial_rca.Mar.Rules.Best.{apply_rules_best, Wins}
use industrial_rca.Mar.Resolution.Lookups.{get_asset}
use industrial_rca.Mar.Resolution.Resolve.{Query, resolve_asset, exact_match, is_human}
use industrial_rca.Mar.Resolution.Guarantees.{exact_alias, resolve_asset_resolved}
use industrial_rca.Mar.Resolution.Demotion.{resolve_asset_demotes_once}

abbrev alias_of : String → String → ℕ → ResolutionStatus → Option ℕ → AliasRow
alias_of id asset confidence status end = record {
  asset_id = asset;
  tenant_id = "t";
  connection_id = "p1.historian.pi";
  external_id = "P-101.FLOW";
  valid_from = 10;
  valid_to = end;
  mapping_source = "vendor";
  confidence = confidence;
  is_primary = true;
  resolution_status = status;
  candidate_alternatives = none;
  resolved_by = none;
  vendor_path = none;
  vendor_metadata = none;
  confirmed_by = none;
  notes = none;
  alias_id = some id;
  validated_by = none;
  validated_at = none;
  resolved_at = some 10;
}

abbrev old_alias : AliasRow
old_alias = alias_of "a1" "pump" 6000 auto_resolved none

abbrev new_alias : AliasRow
new_alias = record old_alias { asset_id = "spare"; valid_from = 50; alias_id = none }

abbrev old_rows : List AliasRow
old_rows = old_alias ∷ []

find-upsert_alias_example :
    find_active_alias "t" "p1.historian.pi" "P-101.FLOW" none
      (upsert_alias 60 "a2" new_alias old_rows)
    ≡ some (stored_alias 60 "a2" new_alias)
find-upsert_alias_example = find-upsert_alias 60 "a2" new_alias old_rows refl

upsert_alias-keeps_history_example :
    asset_of (
      find_active_alias "t" "p1.historian.pi" "P-101.FLOW"
        (some 20)
        (upsert_alias 60 "a2" new_alias old_rows))
    ≡ asset_of (find_active_alias "t" "p1.historian.pi" "P-101.FLOW" (some 20) old_rows)
upsert_alias-keeps_history_example =
    upsert_alias-keeps_history 60 "a2" new_alias old_rows "t" "p1.historian.pi" "P-101.FLOW" 20
      (omega arith)

-- The asset before the new row begins, and after.
history_run :
    asset_of (
      find_active_alias "t" "p1.historian.pi" "P-101.FLOW"
        (some 20)
        (upsert_alias 60 "a2" new_alias old_rows))
    ≡ some "pump"
unfolding find_active_alias upsert_alias stored_alias in_force about close_for
history_run = refl

abbrev rejected_alias : AliasRow
rejected_alias = alias_of "a1" "pump" 6000 rejected (some 30)

rejected-IsClosed : IsClosed rejected_alias
rejected-IsClosed = record { ended = refl; status = inl refl }

abbrev reviews : List (String × Verb)
reviews = ("a1", validate 40 "ada") ∷ ("a1", supersede 41 none true) ∷ []

review_all-IsClosed_example :
    (b : AliasRow) × (get_alias "a1" (review_all reviews (rejected_alias ∷ [])) ≡ some b)
    × IsClosed b
unfolding get_alias
review_all-IsClosed_example =
    review_all-IsClosed reviews "a1" (rejected_alias ∷ []) rejected_alias refl rejected-IsClosed

abbrev rule_of : String → ℕ → String → PatternRule
rule_of id confidence applies_to = record {
  id = id;
  search = λ _. some (record { tag = some "P-101"; whole = "P-101.FLOW" });
  iso14224_class = "PU";
  confidence = confidence;
  applies_to = applies_to;
}

abbrev rules : List PatternRule
rules = rule_of "weak" 6000 "tag" ∷ rule_of "strong" 8000 "tag" ∷ rule_of "late" 8000 "tag" ∷ []

abbrev strong_match : RuleMatch
strong_match = record {
  rule_id = "strong";
  iso14224_class = "PU";
  confidence = 8000;
  matched = "P-101";
}

apply_rules_best_example : Wins "P-101.FLOW" "tag" strong_match rules
unfolding apply_rules applies_to_words mem_text hit_of better
apply_rules_best_example = apply_rules_best "P-101.FLOW" "tag" rules strong_match refl

abbrev pump : AssetDescriptor
pump = record {
  asset_id = "pump";
  canonical_id = "p1.pump.p-101";
  tenant_id = "t";
  plant_id = "p1";
  iso14224_class = "PU";
  iso14224_class_kg = none;
  iso14224_level = 6;
  tag = "P-101";
  service = none;
  criticality = "A";
  manufacturer = none;
  model = none;
  serial_number = none;
  commissioned_at = none;
  decommissioned_at = none;
  location_description = none;
  description = none;
}

abbrev repo_with : List AliasRow → InMemoryRepository
repo_with rows = record {
  assets = (("t", "pump"), pump) ∷ [];
  aliases = rows;
  unresolved = [];
  connections = [];
  asset_status = [];
  write_count = 0;
}

abbrev query : String → Query
query connection_id = record {
  external_id = "P-101.FLOW";
  connection_id = connection_id;
  tenant = "t";
  valid_at = none;
  min_confidence = 7000;
  rules = rules;
  now = 70;
  fresh = "a9";
}

abbrev manual_repo : InMemoryRepository
manual_repo = repo_with (alias_of "a1" "pump" 100 human_validated none ∷ [])

resolve_asset_resolved_example :
    ((resolve_asset (query "p1.historian.pi") manual_repo).1 ≡ manual_repo)
    × ((7000 ≤ (resolve_asset (query "p1.historian.pi") manual_repo).0.confidence)
        ⊎ ((row : AliasRow) × (exact_alias (query "p1.historian.pi") manual_repo ≡ some row)
            × (is_human row ≡ true)))
unfolding resolve_asset exact_match find_active_alias about in_force
resolve_asset_resolved_example = resolve_asset_resolved (query "p1.historian.pi") manual_repo refl

-- Two assets carry the same id under one connection, and the call asks for another.
abbrev shared_repo : InMemoryRepository
shared_repo = repo_with (old_alias ∷ alias_of "a2" "spare" 6000 auto_resolved none ∷ [])

abbrev weak_repo : InMemoryRepository
weak_repo = repo_with old_rows

resolve_asset_demotes_once_example :
    resolve_asset
      (record (query "p1.historian.pi") { now = 80; fresh = "a10" })
      (resolve_asset (query "p1.historian.pi") weak_repo).1
    ≡ resolve_asset (query "p1.historian.pi") weak_repo
unfolding get_asset find_active_alias get about in_force
resolve_asset_demotes_once_example =
    resolve_asset_demotes_once (query "p1.historian.pi") weak_repo old_alias pump 80 "a10" refl refl
      refl (omega arith) refl

abbrev pending_repo : InMemoryRepository
pending_repo = repo_with (
    alias_of "a1" "pump" 6000 pending_review none
    ∷ alias_of "a2" "pump" 5000 pending_review none
    ∷ [])
