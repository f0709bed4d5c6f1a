-- ===== src/Mar/Resolution/Demotion.antt =====
-- packages/mar/src/rca_mar/resolution.py: a low-confidence alias is sent to review once.

use industrial_rca.Prelude.{
  ℕ, ◌<◌, String, ◌≡◌, refl, ap, ◌∙◌, inl, inr, true, false, Option, none, some, List, [], ◌∷◌,
  arith, Bool-cases, Bool, ◌&&◌, subst, some_unique, lt→not_leb, str_eq, eq_iff, sym,
}
use industrial_rca.Mar.Rows.{AliasRow, AssetDescriptor}
use industrial_rca.Mar.Repository.{InMemoryRepository}
use industrial_rca.Mar.Repository.Aliases.{
  find_active_alias, about, in_force, stored_alias, upsert_alias,
}
use industrial_rca.Mar.Resolution.Lookups.{get_asset, write_alias}
use industrial_rca.Mar.Resolution.Resolve.{
  AssetResolution, Query, is_human, is_pending, exact_match, resolve_asset,
  demote_to_pending_review, demoted, unresolved, answer,
}
use industrial_rca.Mar.Resolution.Guarantees.{exact_alias, resolve-exact}
use industrial_rca.Mar.Repository.Aliases.History.{find-upsert_alias}

-- The answer to a machine's alias below the threshold.
abbrev low_answer : AliasRow → AssetResolution
low_answer row = answer unresolved (some row.asset_id) row.confidence "exact_match"

exact_low_pending :
    (q : Query) (row : AliasRow) (repo : InMemoryRepository)
    → is_human row ≡ false
    → row.confidence < q.min_confidence
    → is_pending row ≡ true
    → exact_match q row repo ≡ (low_answer row, repo)
unfolding exact_match
exact_low_pending q row repo human low pending = rw (human, lt→not_leb _ _ low) (rw pending refl)

exact_low_demoted :
    (q : Query) (row : AliasRow) (repo : InMemoryRepository)
    → is_human row ≡ false
    → row.confidence < q.min_confidence
    → is_pending row ≡ false
    → exact_match q row repo ≡ (low_answer row, demote_to_pending_review q row "exact_match" repo)
unfolding exact_match
exact_low_demoted q row repo human low pending = rw (human, lt→not_leb _ _ low) (rw pending refl)

find-about :
    (t c e : String) (at : Option ℕ) (rows : List AliasRow) (a : AliasRow)
    → find_active_alias t c e at rows ≡ some a
    → about t c e a ≡ true
unfolding find_active_alias
find-about t c e at [] a h = cc
find-about t c e at (x ∷ rows) a h = elim (Bool-cases (about t c e x && in_force x at)) [
  | inl y ↦ subst (λ z. about t c e z ≡ true) (some_unique refl (rw y at h)) (ground arith)
  | inr n ↦ find-about t c e at rows a (rw n at h)
]

and-split : (x y : Bool) → x && y ≡ true → (x ≡ true) × (y ≡ true)
and-split true y h = (refl, h)
and-split false y h = cc

about→≡ :
    (t c e : String) (a : AliasRow)
    → about t c e a ≡ true
    → (a.tenant_id ≡ t) × (a.connection_id ≡ c) × (a.external_id ≡ e)
unfolding about
about→≡ t c e a h =
    let (x, y) = and-split (str_eq a.tenant_id t) _ h in
    let (z, w) = and-split (str_eq a.connection_id c) _ y in
    ((eq_iff a.tenant_id t).0 x, (eq_iff a.connection_id c).0 z, (eq_iff a.external_id e).0 w)

-- A demoted row is the row that the same question finds next.
find-demoted :
    (q : Query) (repo : InMemoryRepository) (row : AliasRow) (canonical : String)
    → q.valid_at ≡ none
    → about q.tenant q.connection_id q.external_id row ≡ true
    → exact_alias q (write_alias q.now q.fresh (demoted q row canonical "exact_match") repo)
      ≡ some (stored_alias q.now q.fresh (demoted q row canonical "exact_match"))
unfolding demoted write_alias upsert_alias
find-demoted q repo row canonical at ab =
    let alias = demoted q row canonical "exact_match" in
    let rows = upsert_alias q.now q.fresh alias repo.aliases in
    let found = some (stored_alias q.now q.fresh alias) in
    let (t, c, e) = about→≡ q.tenant q.connection_id q.external_id row ab in
    subst (λ z. find_active_alias q.tenant q.connection_id q.external_id z rows ≡ found) (sym at)
      (subst (λ z. find_active_alias z q.connection_id q.external_id none rows ≡ found) t
        (subst (λ z. find_active_alias row.tenant_id z q.external_id none rows ≡ found) c
          (subst (λ z. find_active_alias row.tenant_id row.connection_id z none rows ≡ found) e
            (find-upsert_alias q.now q.fresh alias repo.aliases refl))))

demote-write :
    (q : Query) (row : AliasRow) (repo : InMemoryRepository) (asset : AssetDescriptor)
    → get_asset q.tenant row.asset_id repo ≡ some asset
    → demote_to_pending_review q row "exact_match" repo
      ≡ write_alias q.now q.fresh (demoted q row asset.canonical_id "exact_match") repo
unfolding demote_to_pending_review
demote-write q row repo asset found = rw (found, demote_to_pending_review) refl

not_human-stored :
    (q : Query) (row : AliasRow) (canonical : String)
    → is_human row ≡ false
    → is_human (stored_alias q.now q.fresh (demoted q row canonical "exact_match")) ≡ false
unfolding stored_alias demoted
not_human-stored q row canonical h = elim (Bool-cases (str_eq row.mapping_source "manual")) [
  | inr n ↦ n
  | inl y ↦ ground arith
]

-- When the alias in force was neither validated by a human nor mapped by hand, has too little
-- confidence and is of a known asset, the same question without a time, asked once more at any
-- time, gives the same answer and writes nothing more.
pub resolve_asset_demotes_once :
    (q : Query) (repo : InMemoryRepository) (row : AliasRow) (asset : AssetDescriptor) (later : ℕ)
    (fresh : String)
    → q.valid_at ≡ none
    → exact_alias q repo ≡ some row
    → is_human row ≡ false
    → row.confidence < q.min_confidence
    → get_asset q.tenant row.asset_id repo ≡ some asset
    → resolve_asset (record q { now = later; fresh = fresh }) (resolve_asset q repo).1
      ≡ resolve_asset q repo
unfolding stored_alias demoted
resolve_asset_demotes_once q repo row asset later fresh at e human low found =
    let q' : Query = record q { now = later; fresh = fresh } in
    elim (Bool-cases (is_pending row)) [
      | inl y ↦
          let first : resolve_asset q repo ≡ (low_answer row, repo) =
            resolve-exact q repo row e ∙ exact_low_pending q row repo human low y in
          rw first (resolve-exact q' repo row e ∙ exact_low_pending q' row repo human low y)
      | inr n ↦
          let alias = demoted q row asset.canonical_id "exact_match" in
          let next = write_alias q.now q.fresh alias repo in
          let first : resolve_asset q repo ≡ (low_answer row, next) =
            resolve-exact q repo row e
            ∙ exact_low_demoted q row repo human low n
            ∙ ap (λ r. (low_answer row, r)) (demote-write q row repo asset found) in
          rw first (
            resolve-exact q' next (stored_alias q.now q.fresh alias) (
              find-demoted q repo row asset.canonical_id at
                (find-about q.tenant q.connection_id q.external_id q.valid_at repo.aliases row e))
            ∙ exact_low_pending q' (stored_alias q.now q.fresh alias) next
                (not_human-stored q row asset.canonical_id human) low refl)
    ]
