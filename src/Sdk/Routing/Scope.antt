-- ===== src/Sdk/Routing/Scope.antt =====
-- packages/connector_sdk/src/rca_connector_sdk/routing.py: a route is for the scope that was asked.
use industrial_rca.Prelude.{
  keep_if-All, if◌then◌else◌, not, ◌||◌, String, Bool, ◌≡◌, true, Option, none, some, List, [], ◌∷◌,
  arith, eq_iff, str_eq, Option-cases, Bool-cases, keep_if, All, string_eq, inl, inr, ap, sym, ◌∙◌,
  subst,
}
use industrial_rca.Prelude.Dict.{Dict, get, put, get-put_cases}
use industrial_rca.Sdk.Routing.{
  ConnectionInfo, routed, refused, by_id, serves, single_match, static_active, not_for_scope,
  no_connection_with_id,
}

-- The connection has the plant and the category, and the id if one was named.
abbrev pub InScope : String → String → Option String → ConnectionInfo → Type 0
InScope plant category none c = (c.plant_id ≡ plant) × (c.category ≡ category)
InScope plant category (some id) c =
    (c.connection_id ≡ id) × (c.plant_id ≡ plant) × (c.category ≡ category)

serves→≡ :
    (plant category : String) (c : ConnectionInfo)
    → serves plant category c ≡ true
    → (c.plant_id ≡ plant) × (c.category ≡ category)
unfolding serves
serves→≡ plant category c h =
    (ground (arith, eq_iff c.plant_id plant), ground (arith, eq_iff c.category category))

single_match-kept :
    (p : ConnectionInfo → Bool) (conns : List ConnectionInfo) (c : ConnectionInfo)
    → single_match (keep_if p conns) ≡ routed c
    → p c ≡ true
unfolding single_match
single_match-kept p conns c h = only (keep_if p conns) (keep_if-All p conns) h
  where
    only :
        (xs : List ConnectionInfo)
        → All (λ x. p x ≡ true) xs
        → single_match xs ≡ routed c
        → p c ≡ true
    only [] a h = cc
    only (x ∷ []) a h = cc (a.0)
    only (x ∷ y ∷ xs) a h = cc

by_id_keyed :
    (conns : List ConnectionInfo) (d : Dict String ConnectionInfo)
    → ((k : String) (c : ConnectionInfo) → get k d ≡ some c → c.connection_id ≡ k)
    → (k : String) (c : ConnectionInfo) → get k (by_id d conns) ≡ some c
    → c.connection_id ≡ k
unfolding by_id
by_id_keyed [] d h k c e = h k c e
by_id_keyed (x ∷ xs) d h k c e =
    by_id_keyed xs (put x.connection_id x d)
      (λ j r f. elim (get-put_cases x.connection_id j x d f) [
        | inl (q, s) ↦ ap (λ z. z.connection_id) (sym s) ∙ q
        | inr (n, g) ↦ h j r g
      ])
      k c e

routed_unique : (x c : ConnectionInfo) → routed x ≡ routed c → x ≡ c
routed_unique x c h = cc

-- Whatever connections there are, the router answers only a connection of the plant and the category
-- that were asked for, and, when an id was named, the connection of that id.
pub static_active-InScope :
    (conns : List ConnectionInfo) (plant category : String) (id : Option String)
    (c : ConnectionInfo)
    → static_active conns plant category id ≡ routed c
    → InScope plant category id c
unfolding static_active get
static_active-InScope conns plant category none c h =
    serves→≡ plant category c (single_match-kept (serves plant category) conns c h)
static_active-InScope conns plant category (some id) c h =
    elim (Option-cases (get id (by_id [] conns))) [
      | inl e ↦
          let h' : refused (no_connection_with_id id) ≡ routed c = rw (e, static_active) at h in cc
      | inr (x, e) ↦
          in_scope x e (by_id_keyed conns [] (λ k r f. nothing k r f) id x e)
            (rw (e, static_active) at h)
    ]
  where
    nothing : (k : String) (r : ConnectionInfo) → get k [] ≡ some r → r.connection_id ≡ k
    nothing k r f = cc

    in_scope :
        (x : ConnectionInfo)
        → get id (by_id [] conns) ≡ some x
        → x.connection_id ≡ id
        → (if not (str_eq x.plant_id plant) || not (str_eq x.category category)
            then refused (not_for_scope id)
            else routed x)
          ≡ routed c
        → InScope plant category (some id) c
    in_scope x e q h = elim (Bool-cases (str_eq x.plant_id plant)) [
      | inr n ↦ let h' : refused (not_for_scope id) ≡ routed c = rw n at h in cc
      | inl y ↦ elim (Bool-cases (str_eq x.category category)) [
        | inr n ↦ let h' : refused (not_for_scope id) ≡ routed c = rw (y, n) at h in cc
        | inl z ↦
            subst (InScope plant category (some id)) (routed_unique x c (rw (y, z) at h))
              (q, (eq_iff x.plant_id plant).0 y, (eq_iff x.category category).0 z)
      ]
    ]
