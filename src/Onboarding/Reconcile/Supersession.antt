-- ===== src/Onboarding/Reconcile/Supersession.antt =====
-- packages/onboarding/src/rca_onboarding/activities.py: the supersession of an orphaned binding, on
-- the rows of packages/mar/src/rca_mar/repository.py.
use industrial_rca.Prelude.{
  All, map-All, Bool-cases, [], ◌∷◌, false, ℕ, String, true, ◌≡◌, refl, ◌∙◌, Option, none, some,
  List, inl, inr, beq_cases, string_eq, eq_iff, ap, str_eq,
}
use industrial_rca.Mar.Rows.{AliasRow}
use industrial_rca.Mar.Repository.Aliases.{
  supersede_binding, supersede_change, review, has_id, get_alias, set_alias,
}
use industrial_rca.Mar.Repository.Aliases.Reviews.{
  get_alias-set_alias, get_alias-id, change_keeps_id, supersede_never_refuses, Change-cases,
  supersede,
}
use industrial_rca.Onboarding.Reconcile.{superseded_rows}

-- An alias that has an id is found by it.
abbrev pub Listed : Option String → List AliasRow → Type 0
Listed none rows = Unit
Listed (some i) rows = (x : AliasRow) × (get_alias i rows ≡ some x)

set_alias-Listed :
    (i : String) (b old : AliasRow) (rows : List AliasRow)
    → b.alias_id ≡ some i
    → get_alias i rows ≡ some old
    → (o : Option String) → Listed o rows
    → Listed o (set_alias i b rows)
set_alias-Listed i b old rows h e none l = tt
set_alias-Listed i b old rows h e (some j) (x, l) =
    let after = get_alias-set_alias i j b rows old h e in
    elim (beq_cases i j) [
      | inl q ↦ (b, after ∙ rw ((eq_iff i j).1 q) refl)
      | inr (n, f) ↦ (x, after ∙ rw f l)
    ]

there-Listed :
    (x : AliasRow) (rows : List AliasRow) (o : Option String) → Listed o rows → Listed o (x ∷ rows)
unfolding get_alias
there-Listed x rows none l = tt
there-Listed x rows (some i) (y, l) = elim (Bool-cases (has_id i x)) [
  | inl h ↦ (x, rw (h, get_alias) refl)
  | inr n ↦ (y, rw (n, get_alias) l)
]

here-Listed : (x : AliasRow) (rows : List AliasRow) → Listed x.alias_id (x ∷ rows)
unfolding get_alias
here-Listed x rows = go x.alias_id refl
  where
    go : (o : Option String) → x.alias_id ≡ o → Listed o (x ∷ rows)
    go none e = tt
    go (some i) e =
        let h : has_id i x ≡ true =
          ap (λ o. elim o [ none ↦ false | some k ↦ str_eq k i ]) e ∙ (eq_iff i i).1 refl in
        (x, rw (h, get_alias) refl)

pub rows-Listed : (rows : List AliasRow) → All (λ a. Listed a.alias_id rows) rows
rows-Listed [] = tt
rows-Listed (x ∷ rows) = (
  here-Listed x rows,
  map-All (λ a. Listed a.alias_id rows) (λ a. Listed a.alias_id (x ∷ rows)) rows
      (λ a. there-Listed x rows a.alias_id) (rows-Listed rows),
)

-- A listed alias is superseded without an exception, and every listed alias is listed after it.
pub superseded_runs :
    (now : ℕ) (o : Option String) (rows : List AliasRow)
    → Listed o rows
    → (after : List AliasRow) × (superseded_rows now o rows ≡ some after)
      × ((p : Option String) → Listed p rows → Listed p after)
unfolding superseded_rows supersede_binding review
superseded_runs now none rows l = (rows, refl, λ p h. h)
superseded_runs now (some i) rows (x, e) = elim (Change-cases (supersede_change now none true x)) [
  | inl q ↦ (rows, rw (e, superseded_rows) (rw q refl), λ p h. h)
  | inr (inl q) ↦ absurd (supersede_never_refuses now none true x q)
  | inr (inr (b, q)) ↦ (
    set_alias i b rows,
    rw (e, superseded_rows) (rw q refl),
    set_alias-Listed i b x rows
        (change_keeps_id (supersede now none true) x b q ∙ get_alias-id i rows x e) e,
  )
]
