-- ===== src/Mar/Repository/Aliases/History.antt =====
-- packages/mar/src/rca_mar/repository.py: `upsert_alias` closes the row before it and keeps history.
use industrial_rca.Prelude.{
  if◌then◌else◌, false, ap, subst, sym, ◌≢◌, eq_iff, ℕ, ◌<◌, String, ◌≡◌, refl, ◌∙◌, true, false,
  Option, none, some, List, [], ◌∷◌, ◌++◌, map, arith, eq_refl, ◌&&◌, Bool-cases, inl, inr, ◌≢◌,
  eq_iff,
}
use industrial_rca.Mar.Rows.{AliasRow}
use industrial_rca.Mar.Repository.Aliases.{
  in_force, about, find_active_alias, close_for, stored_alias, upsert_alias,
}

-- The asset that a lookup answers.
abbrev pub asset_of : Option AliasRow → Option String
asset_of none = none
asset_of (some a) = some a.asset_id

module _ (alias : AliasRow) where
  nothing_open :
      (rows : List AliasRow)
      → find_active_alias alias.tenant_id alias.connection_id alias.external_id none
          (map (close_for alias) rows)
        ≡ none
  unfolding find_active_alias in_force close_for about
  nothing_open [] = refl
  nothing_open (a ∷ rows) = ground (arith, nothing_open rows)

find-append_none :
    (t c e : String) (at : Option ℕ) (xs : List AliasRow) (row : AliasRow)
    → find_active_alias t c e at xs ≡ none
    → find_active_alias t c e at (xs ++ row ∷ []) ≡ find_active_alias t c e at (row ∷ [])
unfolding find_active_alias
find-append_none t c e at [] row h = refl
find-append_none t c e at (a ∷ xs) row h = ground (arith, find-append_none t c e at xs row)

about_self : (a : AliasRow) → about a.tenant_id a.connection_id a.external_id a ≡ true
unfolding about
about_self a = rw (eq_refl a.tenant_id, eq_refl a.connection_id, eq_refl a.external_id)

-- After an open-ended alias is upserted, the lookup of its id without a time finds that very row.
pub find-upsert_alias :
    (now : ℕ) (fresh : String) (alias : AliasRow) (rows : List AliasRow)
    → alias.valid_to ≡ none
    → find_active_alias alias.tenant_id alias.connection_id alias.external_id none
        (upsert_alias now fresh alias rows)
      ≡ some (stored_alias now fresh alias)
unfolding upsert_alias
find-upsert_alias now fresh alias rows h =
    find-append_none alias.tenant_id alias.connection_id alias.external_id none _ _
      (nothing_open alias rows)
    ∙ (unfold find_active_alias in_force stored_alias about in
        rw (h, eq_refl alias.tenant_id, eq_refl alias.connection_id, eq_refl alias.external_id))

module _ (alias a : AliasRow) where
  about-close_for : (t c e : String) → about t c e (close_for alias a) ≡ about t c e a
  unfolding close_for about
  about-close_for t c e = ground arith

  asset-close_for : (close_for alias a).asset_id ≡ a.asset_id
  unfolding close_for
  asset-close_for = ground arith

  in_force-close_for :
      (t : ℕ) → t < alias.valid_from → in_force (close_for alias a) (some t) ≡ in_force a (some t)
  unfolding close_for in_force
  in_force-close_for t h = ground arith

same_head :
    (t c e : String) (at : Option ℕ) (a b : AliasRow) (xs ys : List AliasRow)
    → about t c e b ≡ about t c e a
    → in_force b at ≡ in_force a at
    → b.asset_id ≡ a.asset_id
    → asset_of (find_active_alias t c e at ys) ≡ asset_of (find_active_alias t c e at xs)
    → asset_of (find_active_alias t c e at (b ∷ ys))
      ≡ asset_of (find_active_alias t c e at (a ∷ xs))
unfolding find_active_alias
same_head t c e at a b xs ys p q r h = elim (Bool-cases (about t c e a && in_force a at)) [
  | inl y ↦ rw (p, q) (rw y (rw r))
  | inr n ↦ rw (p, q) (rw n h)
]

not_yet : (alias : AliasRow) (t : ℕ) → t < alias.valid_from → in_force alias (some t) ≡ false
unfolding in_force
not_yet alias t h = ground arith

-- Before the new row begins, a lookup of any id at that time answers the asset that it answered
-- before the upsert.
pub upsert_alias-keeps_history :
    (now : ℕ) (fresh : String) (alias : AliasRow) (rows : List AliasRow)
    (tenant connection_id external_id : String) (t : ℕ)
    → t < alias.valid_from
    → asset_of (
        find_active_alias tenant connection_id external_id
          (some t)
          (upsert_alias now fresh alias rows))
      ≡ asset_of (find_active_alias tenant connection_id external_id (some t) rows)
unfolding upsert_alias
upsert_alias-keeps_history now fresh alias [] tenant connection_id external_id t h =
    unfold find_active_alias in
    (rw (not_yet (stored_alias now fresh alias) t (unfold stored_alias in h)) (ground arith))
upsert_alias-keeps_history now fresh alias (a ∷ rows) tenant connection_id external_id t h =
    same_head tenant connection_id external_id (some t) a (close_for alias a) rows _
      (about-close_for alias a tenant connection_id external_id) (in_force-close_for alias a t h)
      (asset-close_for alias a)
      (upsert_alias-keeps_history now fresh alias rows tenant connection_id external_id t h)

find_skip :
    (t c e : String) (at : Option ℕ) (a : AliasRow) (rows : List AliasRow)
    → about t c e a ≡ false
    → find_active_alias t c e at (a ∷ rows) ≡ find_active_alias t c e at rows
unfolding find_active_alias
find_skip t c e at a rows n = rw (n, find_active_alias) refl

find_behind :
    (t c e : String) (at : Option ℕ) (a : AliasRow) (xs ys : List AliasRow)
    → find_active_alias t c e at xs ≡ find_active_alias t c e at ys
    → find_active_alias t c e at (a ∷ xs) ≡ find_active_alias t c e at (a ∷ ys)
unfolding find_active_alias
find_behind t c e at a xs ys h = ap (λ o. if about t c e a && in_force a at then some a else o) h

about_ne : (t c e : String) (a : AliasRow) → a.external_id ≢ e → about t c e a ≡ false
unfolding about
about_ne t c e a n = ground (arith, eq_iff a.external_id e)

about→≡ : (t c e : String) (a : AliasRow) → about t c e a ≡ true → a.external_id ≡ e
unfolding about
about→≡ t c e a h = ground (arith, eq_iff a.external_id e)

close_ne : (alias a : AliasRow) → a.external_id ≢ alias.external_id → close_for alias a ≡ a
unfolding close_for
close_ne alias a n =
    rw (about_ne alias.tenant_id alias.connection_id alias.external_id a n, close_for) refl

-- A lookup of another external id is not touched by an upsert.
pub find-upsert_alias_ne :
    (now : ℕ) (fresh : String) (alias : AliasRow) (rows : List AliasRow)
    (tenant connection_id external_id : String) (at : Option ℕ)
    → alias.external_id ≢ external_id
    → find_active_alias tenant connection_id external_id at (upsert_alias now fresh alias rows)
      ≡ find_active_alias tenant connection_id external_id at rows
unfolding upsert_alias
find-upsert_alias_ne now fresh alias [] t c e at n =
    find_skip t c e at (stored_alias now fresh alias) []
      (about_ne t c e (stored_alias now fresh alias) (unfold stored_alias in n))
find-upsert_alias_ne now fresh alias (a ∷ rows) t c e at n = elim (Bool-cases (about t c e a)) [
  | inl y ↦
      subst
        (λ x.
          find_active_alias t c e at (x ∷ upsert_alias now fresh alias rows)
          ≡ find_active_alias t c e at (a ∷ rows))
        (sym (close_ne alias a (λ q. n (sym q ∙ about→≡ t c e a y))))
        (find_behind t c e at a _ rows (find-upsert_alias_ne now fresh alias rows t c e at n))
  | inr z ↦
      find_skip t c e at (close_for alias a) _ (about-close_for alias a t c e ∙ z)
      ∙ find-upsert_alias_ne now fresh alias rows t c e at n
      ∙ sym (find_skip t c e at a rows z)
]
