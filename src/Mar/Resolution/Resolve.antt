-- ===== src/Mar/Resolution/Resolve.antt =====
-- packages/mar/src/rca_mar/resolution.py: the four steps. A confidence is counted in
-- ten-thousandths.
use industrial_rca.Prelude.{
  sort_texts, ℕ, String, Bool, true, false, ◌||◌, Option, none, some, List, [], ◌∷◌, leb, str_eq,
  if◌then◌else◌,
}
use industrial_rca.Prelude.Dict.{values}
use industrial_rca.Mar.Rows.{AliasRow, pending_review, human_validated}
use industrial_rca.Mar.Repository.{
  InMemoryRepository, candidate_asset_missing, unknown_connection, ambiguous_crosswalk, no_match,
}
use industrial_rca.Mar.Repository.Connections.{get_connection}
use industrial_rca.Mar.Repository.Aliases.{find_active_alias}
use industrial_rca.Mar.Rules.{PatternRule, RuleMatch, applied, value_error, apply_rules}
use industrial_rca.Mar.Resolution.Lookups.{
  find_crosswalk_candidates, asset_with_tag, get_asset, upsert_unresolved, write_alias, distinct,
}

pub data ResolveStatus : Type 0 where
  resolved ambiguous unresolved : ResolveStatus

pub record AssetResolution : Type 0 where
  pub status : ResolveStatus
  pub asset_id : Option String
  pub confidence : ℕ
  pub mapping_source : String
  pub alternatives : List String

abbrev pub crosswalk_confidence : ℕ
crosswalk_confidence = 8500

-- A call's arguments, with the clock, the next UUID and the rules in use.
pub record Query : Type 0 where
  pub external_id : String
  pub connection_id : String
  pub tenant : String
  pub valid_at : Option ℕ
  pub min_confidence : ℕ
  pub rules : List PatternRule
  pub now : ℕ
  pub fresh : String

unfoldable pub pending_alias : Query → String → String → ℕ → String → AliasRow
pending_alias q asset_id canonical_id confidence method = record {
  asset_id = asset_id;
  tenant_id = q.tenant;
  connection_id = q.connection_id;
  external_id = q.external_id;
  valid_from = q.now;
  valid_to = none;
  mapping_source = method;
  confidence = confidence;
  is_primary = false;
  resolution_status = pending_review;
  candidate_alternatives =
      some (record { canonical_id = canonical_id; confidence = confidence; method = method } ∷ []);
  resolved_by = some "system";
  vendor_path = none;
  vendor_metadata = none;
  confirmed_by = none;
  notes = none;
  alias_id = none;
  validated_by = none;
  validated_at = none;
  resolved_at = none;
}

unfoldable pub persist_pending_review :
    Query → String → ℕ → String → InMemoryRepository → InMemoryRepository
unfolding pending_alias
persist_pending_review q asset_id confidence method repo = elim (get_asset q.tenant asset_id repo) [
  | none ↦
      upsert_unresolved q.tenant q.connection_id q.external_id (candidate_asset_missing method) repo
  | some asset ↦ elim (get_connection q.connection_id repo.connections) [
    | none ↦
        upsert_unresolved q.tenant q.connection_id q.external_id
          (unknown_connection method (record {
            canonical_id = asset.canonical_id;
            confidence = confidence;
            method = method;
          }))
          repo
    | some _ ↦
        write_alias q.now q.fresh (pending_alias q asset_id asset.canonical_id confidence method)
          repo
  ]
]

unfoldable pub demoted : Query → AliasRow → String → String → AliasRow
demoted q row canonical_id method = record row {
  valid_from = q.now;
  valid_to = none;
  resolution_status = pending_review;
  resolved_by = some "system";
  candidate_alternatives =
      some
        (record { canonical_id = canonical_id; confidence = row.confidence; method = method } ∷ []);
}

unfoldable pub demote_to_pending_review :
    Query → AliasRow → String → InMemoryRepository → InMemoryRepository
unfolding demoted
demote_to_pending_review q row method repo = elim (get_asset q.tenant row.asset_id repo) [
  | none ↦
      upsert_unresolved q.tenant q.connection_id q.external_id (candidate_asset_missing method) repo
  | some asset ↦ write_alias q.now q.fresh (demoted q row asset.canonical_id method) repo
]

abbrev pub answer : ResolveStatus → Option String → ℕ → String → AssetResolution
answer status asset_id confidence source = record {
  status = status;
  asset_id = asset_id;
  confidence = confidence;
  mapping_source = source;
  alternatives = [];
}

abbrev pub is_human : AliasRow → Bool
is_human row =
    (elim row.resolution_status [ human_validated ↦ true | _ ↦ false ])
    || str_eq row.mapping_source "manual"

abbrev pub is_pending : AliasRow → Bool
is_pending row = elim row.resolution_status [ pending_review ↦ true | _ ↦ false ]

-- Step 1, on the active alias.
unfoldable pub exact_match :
    Query → AliasRow → InMemoryRepository → AssetResolution × InMemoryRepository
exact_match q row repo =
    if is_human row
    then (answer resolved (some row.asset_id) row.confidence "exact_match", repo)
    else if leb q.min_confidence row.confidence
    then (answer resolved (some row.asset_id) row.confidence "exact_match", repo)
    else if is_pending row
    then (answer unresolved (some row.asset_id) row.confidence "exact_match", repo)
    else (
      answer unresolved (some row.asset_id) row.confidence "exact_match",
      demote_to_pending_review q row "exact_match" repo,
    )

-- A single candidate of step 2 or 3: resolved, or kept for review.
unfoldable pub single_candidate :
    Query → String → ℕ → String → InMemoryRepository → AssetResolution × InMemoryRepository
single_candidate q asset_id confidence method repo =
    if leb q.min_confidence confidence
    then (answer resolved (some asset_id) confidence method, repo)
    else (
      answer unresolved (some asset_id) confidence method,
      persist_pending_review q asset_id confidence method repo,
    )

-- Steps 3 and 4.
unfoldable pub no_candidate : Query → InMemoryRepository → AssetResolution × InMemoryRepository
no_candidate q repo = (
  answer unresolved none 0 "none",
  upsert_unresolved q.tenant q.connection_id q.external_id no_match repo,
)

-- "tag" is a word of `APPLIES_TO`, so the call does not raise.
unfoldable pub tag_match : Query → Option RuleMatch
tag_match q = elim (apply_rules q.external_id "tag" q.rules) [
  | applied best ↦ best
  | value_error ↦ none
]

unfoldable pub by_rules : Query → InMemoryRepository → AssetResolution × InMemoryRepository
unfolding no_candidate tag_match
by_rules q repo = elim (tag_match q) [
  | none ↦ no_candidate q repo
  | some m ↦ elim (asset_with_tag q.tenant m.matched (values repo.assets)) [
    | none ↦ no_candidate q repo
    | some asset ↦ single_candidate q asset.asset_id m.confidence m.rule_id repo
  ]
]

-- Step 2, on the distinct assets of the candidates.
unfoldable pub cross_walk :
    Query → List String → InMemoryRepository → AssetResolution × InMemoryRepository
unfolding by_rules
cross_walk q [] repo = by_rules q repo
cross_walk q (asset_id ∷ []) repo =
    single_candidate q asset_id crosswalk_confidence "cross_walk" repo
cross_walk q (a ∷ b ∷ others) repo =
    let sorted = sort_texts (a ∷ b ∷ others) in
    (
      record {
        status = ambiguous;
        asset_id = none;
        confidence = crosswalk_confidence;
        mapping_source = "cross_walk";
        alternatives = sorted;
      },
      upsert_unresolved q.tenant q.connection_id q.external_id (ambiguous_crosswalk sorted) repo,
    )

unfoldable pub resolve_asset : Query → InMemoryRepository → AssetResolution × InMemoryRepository
unfolding cross_walk find_active_alias
resolve_asset q repo =
    elim (find_active_alias q.tenant q.connection_id q.external_id q.valid_at repo.aliases) [
      | some row ↦ exact_match q row repo
      | none ↦
          cross_walk q (distinct (find_crosswalk_candidates q.tenant q.external_id repo.aliases))
            repo
    ]
