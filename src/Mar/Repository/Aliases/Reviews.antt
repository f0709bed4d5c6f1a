-- ===== src/Mar/Repository/Aliases/Reviews.antt =====
-- packages/mar/src/rca_mar/repository.py: what the review paths do to the status of an alias.
use industrial_rca.Prelude.{
  ℕ, String, ◌≡◌, refl, ap, ◌∙◌, ◌⊎◌, inl, inr, Bool, true, false, Option, none, some, List, [],
  ◌∷◌, arith, eq_iff, str_eq, Option-cases, Bool-cases, beq_cases, string_eq, some_unique, subst,
  if◌then◌else◌,
}
use industrial_rca.Mar.Rows.{AliasRow, rejected, superseded}
use industrial_rca.Mar.Repository.Aliases.{
  validate_at, reject_at, supersede_at, Review, reviewed, key_error, invalid_transition, has_id,
  get_alias, set_alias, Change, leave, refuse, write, review, validate_change, reject_change,
  supersede_change, closed_by, is_none,
}

-- A row that is out of use: rejected or superseded, and with an end.
pub record IsClosed (a : AliasRow) : Type 0 where
  pub ended : is_none a.valid_to ≡ false
  pub status : (a.resolution_status ≡ rejected) ⊎ (a.resolution_status ≡ superseded)

-- One review request.
pub data Verb : Type 0 where
  validate : ℕ → String → Verb
  reject : ℕ → String → String → Verb
  supersede : ℕ → Option String → Bool → Verb

abbrev pub change_of : Verb → AliasRow → Change
change_of (validate now who) = validate_change now who
change_of (reject now who reason) = reject_change now who reason
change_of (supersede now successor system) = supersede_change now successor system

-- The rows after a request; an exception leaves them.
abbrev pub rows_after : List AliasRow → Review → List AliasRow
rows_after rows (reviewed row new) = new
rows_after rows key_error = rows
rows_after rows (invalid_transition status) = rows

unfoldable pub review_all : List (String × Verb) → List AliasRow → List AliasRow
review_all [] rows = rows
review_all ((id, verb) ∷ verbs) rows =
    review_all verbs (rows_after rows (review (change_of verb) id rows))

abbrev ClosedChange : Change → Type 0
ClosedChange leave = Unit
ClosedChange refuse = Unit
ClosedChange (write row) = IsClosed row

closed_by_ended : (now : ℕ) (o : Option ℕ) → is_none (closed_by now o) ≡ false
closed_by_ended now none = refl
closed_by_ended now (some t) = refl

change-IsClosed : (verb : Verb) (a : AliasRow) → IsClosed a → ClosedChange (change_of verb a)
unfolding validate_change reject_change supersede_change
change-IsClosed (validate now who) a c = elim c.status [
  | inl e ↦ rw (e, validate_at) tt
  | inr e ↦ rw (e, validate_at) tt
]
change-IsClosed (reject now who reason) a c = elim c.status [
  | inl e ↦ rw (e, reject_at) tt
  | inr e ↦ rw (e, reject_at) (record { ended = closed_by_ended now a.valid_to; status = inl refl })
]
change-IsClosed (supersede now successor system) a c = elim c.status [
  | inl e ↦
      rw (e, supersede_at) (record { ended = closed_by_ended now a.valid_to; status = inr refl })
  | inr e ↦ rw (e, supersede_at) tt
]

has_id→≡ : (i : String) (a : AliasRow) → has_id i a ≡ true → a.alias_id ≡ some i
has_id→≡ i a h = elim (Option-cases a.alias_id) [
  | inl e ↦ absurd (missing e)
  | inr (j, e) ↦ e ∙ ap some ((eq_iff j i).0 (rw e at h))
]
  where
    missing : a.alias_id ≡ none → ⊥
    missing e = let h' : false ≡ true = rw e at h in cc

has_id_of : (i j : String) (a : AliasRow) → a.alias_id ≡ some i → has_id j a ≡ str_eq i j
has_id_of i j a h = ap (λ o. elim o [ none ↦ false | some k ↦ str_eq k j ]) h

-- A lookup after the row of an id was replaced.
pub get_alias-set_alias :
    (i j : String) (row : AliasRow) (rows : List AliasRow) (old : AliasRow)
    → row.alias_id ≡ some i
    → get_alias i rows ≡ some old
    → get_alias j (set_alias i row rows) ≡ (if str_eq i j then some row else get_alias j rows)
unfolding get_alias set_alias
get_alias-set_alias i j row [] old h e = cc
get_alias-set_alias i j row (a ∷ rows) old h e = elim (Bool-cases (has_id i a)) [
  | inl y ↦ rw y (rw (has_id_of i j row h, has_id_of i j a (has_id→≡ i a y)) (twice (str_eq i j)))
  | inr n ↦
      let rest = get_alias-set_alias i j row rows old h (rw n at e) in
      elim (Bool-cases (str_eq i j)) [
        | inl same ↦
            let q = subst (λ k. has_id k a ≡ false) ((eq_iff i j).0 same) n in rw (n, q) rest
        | inr differ ↦ rw (n, differ) (rw (rest, differ))
      ]
]
  where
    twice :
        (b : Bool)
        → (if b then some row else get_alias j rows)
          ≡ (if b then some row else (if b then some a else get_alias j rows))
    twice true = refl
    twice false = refl

pub change_keeps_id :
    (verb : Verb) (a b : AliasRow) → change_of verb a ≡ write b → b.alias_id ≡ a.alias_id
unfolding validate_change reject_change supersede_change
change_keeps_id (validate now who) a b h = ground arith
change_keeps_id (reject now who reason) a b h = ground arith
change_keeps_id (supersede now successor system) a b h = ground arith

pub supersede_never_refuses :
    (now : ℕ) (successor : Option String) (system : Bool) (x : AliasRow)
    → supersede_change now successor system x ≡ refuse
    → ⊥
unfolding supersede_change
supersede_never_refuses now successor system x h = ground arith

pub Change-cases : (c : Change) → (c ≡ leave) ⊎ (c ≡ refuse) ⊎ ((b : AliasRow) × (c ≡ write b))
Change-cases leave = inl refl
Change-cases refuse = inr (inl refl)
Change-cases (write b) = inr (inr (b, refl))

abbrev ClosedAt : String → List AliasRow → Type 0
ClosedAt i rows = (b : AliasRow) × (get_alias i rows ≡ some b) × IsClosed b

pub get_alias-id :
    (i : String) (rows : List AliasRow) (a : AliasRow)
    → get_alias i rows ≡ some a
    → a.alias_id ≡ some i
unfolding get_alias
get_alias-id i [] a h = cc
get_alias-id i (x ∷ rows) a h = elim (Bool-cases (has_id i x)) [
  | inl y ↦ subst (λ z. z.alias_id ≡ some i) (some_unique refl (rw y at h)) (has_id→≡ i x y)
  | inr n ↦ get_alias-id i rows a (rw n at h)
]

review_step :
    (verb : Verb) (i j : String) (rows : List AliasRow)
    → ClosedAt i rows
    → ClosedAt i (rows_after rows (review (change_of verb) j rows))
unfolding review
review_step verb i j rows (a, at, c) = elim (Option-cases (get_alias j rows)) [
  | inl e ↦ rw (e, review) (a, at, c)
  | inr (x, e) ↦ elim (Change-cases (change_of verb x)) [
    | inl q ↦ rw (e, review) (rw q (a, at, c))
    | inr (inl q) ↦ rw (e, review) (rw q (a, at, c))
    | inr (inr (b, q)) ↦
        rw (e, review)
          (rw q (
            replaced x e b q (
              get_alias-set_alias j i b rows x
                (change_keeps_id verb x b q ∙ get_alias-id j rows x e) e)))
  ]
]
  where
    replaced :
        (x : AliasRow)
        → get_alias j rows ≡ some x
        → (b : AliasRow) → change_of verb x ≡ write b
        → get_alias i (set_alias j b rows) ≡ (if str_eq j i then some b else get_alias i rows)
        → ClosedAt i (set_alias j b rows)
    replaced x e b q g = elim (beq_cases j i) [
      | inl same ↦
          let cx : IsClosed x =
            subst IsClosed (some_unique at (subst (λ k. get_alias k rows ≡ some x) same e)) c in
          (b, g ∙ rw ((eq_iff j i).1 same), subst ClosedChange q (change-IsClosed verb x cx))
      | inr (_, f) ↦ (a, g ∙ rw f at, c)
    ]

-- An alias that is rejected or superseded and has an end stays so: after any sequence of
-- validations, rejections and supersessions of any ids, the alias under its id is still rejected
-- or superseded and still has an end.
pub review_all-IsClosed :
    (verbs : List (String × Verb)) (i : String) (rows : List AliasRow) (a : AliasRow)
    → get_alias i rows ≡ some a
    → IsClosed a
    → (b : AliasRow) × (get_alias i (review_all verbs rows) ≡ some b) × IsClosed b
unfolding review_all
review_all-IsClosed [] i rows a at c = (a, at, c)
review_all-IsClosed ((j, verb) ∷ verbs) i rows a at c =
    let (b, at', c') = review_step verb i j rows (a, at, c) in
    review_all-IsClosed verbs i _ b at' c'
