-- ===== src/Mar/Resolution/Guarantees.antt =====
-- packages/mar/src/rca_mar/resolution.py: what an answer of `resolve_asset` means.
use industrial_rca.Prelude.Dict.{values}
use industrial_rca.Prelude.{
  sort_texts, ℕ, ◌≤◌, String, ◌≡◌, refl, ◌⊎◌, inl, inr, true, Option, none, some, List, [], ◌∷◌,
  arith, Option-cases, Bool-cases, length, leb, suc,
}
use industrial_rca.Mar.Rows.{AliasRow}
use industrial_rca.Mar.Repository.{InMemoryRepository}
use industrial_rca.Mar.Repository.Aliases.{find_active_alias}
use industrial_rca.Mar.Resolution.Lookups.{
  find_crosswalk_candidates, distinct, asset_with_tag, upsert_unresolved,
}
use industrial_rca.Mar.Resolution.Resolve.{
  tag_match, AssetResolution, Query, resolved, ambiguous, is_human, is_pending, exact_match,
  single_candidate, no_candidate, by_rules, cross_walk, resolve_asset, unresolved,
  crosswalk_confidence,
}

-- A result that says resolved comes with the repository that was given and enough confidence.
abbrev Confident : Query → InMemoryRepository → AssetResolution × InMemoryRepository → Type 0
Confident q repo result =
    result.0.status ≡ resolved → (result.1 ≡ repo) × (q.min_confidence ≤ result.0.confidence)

single-Confident :
    (q : Query) (asset_id : String) (n : ℕ) (method : String) (repo : InMemoryRepository)
    → Confident q repo (single_candidate q asset_id n method repo)
unfolding single_candidate
single-Confident q asset_id n method repo h = elim (Bool-cases (leb q.min_confidence n)) [
  | inl y ↦ rw y (refl, ground arith)
  | inr z ↦ let h' : unresolved ≡ resolved = rw z at h in cc
]

no_candidate-Confident :
    (q : Query) (repo : InMemoryRepository) → Confident q repo (no_candidate q repo)
unfolding no_candidate
no_candidate-Confident q repo h = cc

by_rules-Confident : (q : Query) (repo : InMemoryRepository) → Confident q repo (by_rules q repo)
unfolding by_rules
by_rules-Confident q repo h = elim (Option-cases (tag_match q)) [
  | inl e ↦ rw (e, by_rules) (no_candidate-Confident q repo (rw (e, by_rules) at h))
  | inr (m, e) ↦ elim (Option-cases (asset_with_tag q.tenant m.matched (values repo.assets))) [
    | inl f ↦
        rw (e, by_rules) (rw f (no_candidate-Confident q repo (rw f at (rw (e, by_rules) at h))))
    | inr (a, f) ↦
        rw (e, by_rules)
          (rw f (
            single-Confident q a.asset_id m.confidence m.rule_id repo
              (rw f at (rw (e, by_rules) at h))))
  ]
]

cross_walk-Confident :
    (q : Query) (ids : List String) (repo : InMemoryRepository)
    → Confident q repo (cross_walk q ids repo)
unfolding cross_walk
cross_walk-Confident q [] repo h = by_rules-Confident q repo h
cross_walk-Confident q (a ∷ []) repo h =
    single-Confident q a crosswalk_confidence "cross_walk" repo h
cross_walk-Confident q (a ∷ b ∷ others) repo h = cc

exact_resolved :
    (q : Query) (row : AliasRow) (repo : InMemoryRepository)
    → (exact_match q row repo).0.status ≡ resolved
    → ((exact_match q row repo).1 ≡ repo)
      × ((q.min_confidence ≤ (exact_match q row repo).0.confidence) ⊎ (is_human row ≡ true))
unfolding exact_match
exact_resolved q row repo h = elim (Bool-cases (is_human row)) [
  | inl y ↦ rw y (refl, inr refl)
  | inr n ↦ elim (Bool-cases (leb q.min_confidence row.confidence)) [
    | inl y ↦ rw (n, y) (refl, inl (ground arith))
    | inr m ↦ elim (Bool-cases (is_pending row)) [
      | inl y ↦ let h' : unresolved ≡ resolved = rw (n, m, y) at h in cc
      | inr k ↦ let h' : unresolved ≡ resolved = rw (n, m, k) at h in cc
    ]
  ]
]

single_ambiguous :
    (q : Query) (asset_id : String) (n : ℕ) (method : String) (repo : InMemoryRepository)
    → (single_candidate q asset_id n method repo).0.status ≡ ambiguous
    → ⊥
unfolding single_candidate
single_ambiguous q asset_id n method repo h = elim (Bool-cases (leb q.min_confidence n)) [
  | inl y ↦ let h' : resolved ≡ ambiguous = rw y at h in cc
  | inr z ↦ let h' : unresolved ≡ ambiguous = rw z at h in cc
]

by_rules_ambiguous :
    (q : Query) (repo : InMemoryRepository) → (by_rules q repo).0.status ≡ ambiguous → ⊥
unfolding by_rules no_candidate
by_rules_ambiguous q repo h = elim (Option-cases (tag_match q)) [
  | inl e ↦ let h' : unresolved ≡ ambiguous = rw (e, by_rules) at h in cc
  | inr (m, e) ↦ elim (Option-cases (asset_with_tag q.tenant m.matched (values repo.assets))) [
    | inl f ↦ let h' : unresolved ≡ ambiguous = rw f at (rw (e, by_rules) at h) in cc
    | inr (a, f) ↦
        single_ambiguous q a.asset_id m.confidence m.rule_id repo (rw f at (rw (e, by_rules) at h))
  ]
]

exact_ambiguous :
    (q : Query) (row : AliasRow) (repo : InMemoryRepository)
    → (exact_match q row repo).0.status ≡ ambiguous
    → ⊥
unfolding exact_match
exact_ambiguous q row repo h = ground arith

arith_two : (others : List String) → 2 ≤ suc (suc (length others))
arith_two others = omega arith

cross_walk_ambiguous :
    (q : Query) (ids : List String) (repo : InMemoryRepository)
    → (cross_walk q ids repo).0.status ≡ ambiguous
    → ((cross_walk q ids repo).0.asset_id ≡ none)
      × ((cross_walk q ids repo).0.alternatives ≡ sort_texts ids)
      × (2 ≤ length ids)
      × ((cross_walk q ids repo).1.aliases ≡ repo.aliases)
unfolding cross_walk
cross_walk_ambiguous q [] repo h = absurd (by_rules_ambiguous q repo h)
cross_walk_ambiguous q (a ∷ []) repo h =
    absurd (single_ambiguous q a crosswalk_confidence "cross_walk" repo h)
cross_walk_ambiguous q (a ∷ b ∷ others) repo h =
    (refl, refl, arith_two others, unfold upsert_unresolved in refl)

-- The alias that answers the call at step 1.
abbrev pub exact_alias : Query → InMemoryRepository → Option AliasRow
exact_alias q repo =
    find_active_alias q.tenant q.connection_id q.external_id q.valid_at repo.aliases

pub resolve-exact :
    (q : Query) (repo : InMemoryRepository) (row : AliasRow)
    → exact_alias q repo ≡ some row
    → resolve_asset q repo ≡ exact_match q row repo
unfolding resolve_asset
resolve-exact q repo row e = rw (e, resolve_asset) refl

resolve-cross :
    (q : Query) (repo : InMemoryRepository)
    → exact_alias q repo ≡ none
    → resolve_asset q repo
      ≡ cross_walk q (distinct (find_crosswalk_candidates q.tenant q.external_id repo.aliases)) repo
unfolding resolve_asset
resolve-cross q repo e = rw (e, resolve_asset) refl

-- An answer that says resolved leaves the repository as it was, and its confidence is at least the
-- threshold unless the alias in force was validated by a human or mapped by hand.
pub resolve_asset_resolved :
    (q : Query) (repo : InMemoryRepository)
    → (resolve_asset q repo).0.status ≡ resolved
    → ((resolve_asset q repo).1 ≡ repo)
      × ((q.min_confidence ≤ (resolve_asset q repo).0.confidence)
          ⊎ ((row : AliasRow) × (exact_alias q repo ≡ some row) × (is_human row ≡ true)))
resolve_asset_resolved q repo h = elim (Option-cases (exact_alias q repo)) [
  | inl e ↦
      let (u, c) = cross_walk-Confident q _ repo (rw (resolve-cross q repo e) at h) in
      rw (resolve-cross q repo e) (u, inl c)
  | inr (row, e) ↦
      let (u, c) = exact_resolved q row repo (rw (resolve-exact q repo row e) at h) in
      rw (resolve-exact q repo row e) (u, elim c [ inl n ↦ inl n | inr y ↦ inr (row, e, y) ])
]

-- An answer that says ambiguous comes when no alias is in force; it names no asset, lists the
-- candidates' assets, at least two, in order, and leaves the aliases as they were.
pub resolve_asset_ambiguous :
    (q : Query) (repo : InMemoryRepository)
    → (resolve_asset q repo).0.status ≡ ambiguous
    → (exact_alias q repo ≡ none)
      × ((resolve_asset q repo).0.asset_id ≡ none)
      × ((resolve_asset q repo).0.alternatives
          ≡ sort_texts (distinct (find_crosswalk_candidates q.tenant q.external_id repo.aliases)))
      × (2 ≤ length (distinct (find_crosswalk_candidates q.tenant q.external_id repo.aliases)))
      × ((resolve_asset q repo).1.aliases ≡ repo.aliases)
resolve_asset_ambiguous q repo h = elim (Option-cases (exact_alias q repo)) [
  | inr (row, e) ↦ absurd (exact_ambiguous q row repo (rw (resolve-exact q repo row e) at h))
  | inl e ↦
      let (none_named, sorted, two, kept) =
        cross_walk_ambiguous q _ repo (rw (resolve-cross q repo e) at h) in
      rw (resolve-cross q repo e) (e, none_named, sorted, two, kept)
]
