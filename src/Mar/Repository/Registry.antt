-- ===== src/Mar/Repository/Registry.antt =====
-- packages/mar/src/rca_mar/repository.py: the asset table holds each descriptor under its tenant and
-- id, and what `find_asset_by_canonical_id` finds after a write.
use industrial_rca.Prelude.{
  String, Bool, true, false, ◌≡◌, ◌≢◌, refl, ap, ◌∙◌, sym, subst, ◌&&◌, Option, some, List, [], ◌∷◌,
  arith, Bool-cases, inl, inr, eq_iff, string_eq, pair_eq, str_eq, beq_cases, some_unique,
}
use industrial_rca.Prelude.Dict.{
  Dict, get, put, values, Unique, Every, get-head, get-tail, put-here, put-there,
}
use industrial_rca.Mar.Rows.{AssetDescriptor}
use industrial_rca.Mar.Repository.Assets.{find_asset_by_canonical_id}

abbrev pub Assets : Type 0
Assets = Dict (String × String) AssetDescriptor

abbrev pub key_of : AssetDescriptor → String × String
key_of a = (a.tenant_id, a.asset_id)

abbrev pub Keyed : String × String → AssetDescriptor → Type 0
Keyed k a = k ≡ key_of a

abbrev matches : String → String → AssetDescriptor → Bool
matches t c a = str_eq a.tenant_id t && str_eq a.canonical_id c

pub found_matches :
    (t c : String) (d : Assets) (a : AssetDescriptor)
    → find_asset_by_canonical_id t c (values d) ≡ some a
    → (a.tenant_id ≡ t) × (a.canonical_id ≡ c)
unfolding find_asset_by_canonical_id
found_matches t c [] a h = cc
found_matches t c ((k, w) ∷ d) a h = elim (Bool-cases (matches t c w)) [
  | inl y ↦
      let same : w ≡ a = some_unique refl (rw y at h) in
      subst (λ x. (x.tenant_id ≡ t) × (x.canonical_id ≡ c)) same
        (ground (arith, eq_iff w.tenant_id t), ground (arith, eq_iff w.canonical_id c))
  | inr n ↦ found_matches t c d a (rw n at h)
]

-- What is found stands under its own key.
pub found-get :
    (t c : String) (d : Assets) (a : AssetDescriptor)
    → Unique d
    → Every Keyed d
    → find_asset_by_canonical_id t c (values d) ≡ some a
    → get (key_of a) d ≡ some a
unfolding find_asset_by_canonical_id
found-get t c [] a u e h = cc
found-get t c ((k, w) ∷ d) a u e h = elim (Bool-cases (matches t c w)) [
  | inl y ↦
      let same : w ≡ a = some_unique refl (rw y at h) in
      subst (λ x. get (key_of x) ((k, w) ∷ d) ≡ some x) same
        (subst (λ i. get i ((k, w) ∷ d) ≡ some w) e.0 (get-head k w d))
  | inr n ↦ get-tail k (key_of a) w a d u.0 (found-get t c d a u.1 e.1 (rw n at h))
]

find-here :
    (t c : String) (w : AssetDescriptor) (ws : List AssetDescriptor)
    → matches t c w ≡ true
    → find_asset_by_canonical_id t c (w ∷ ws) ≡ some w
unfolding find_asset_by_canonical_id
find-here t c w ws y = rw (y, find_asset_by_canonical_id) refl

find-there :
    (t c : String) (w : AssetDescriptor) (ws : List AssetDescriptor)
    → matches t c w ≡ false
    → find_asset_by_canonical_id t c (w ∷ ws) ≡ find_asset_by_canonical_id t c ws
unfolding find_asset_by_canonical_id
find-there t c w ws n = rw (n, find_asset_by_canonical_id) refl

matches-of :
    (t c : String) (v : AssetDescriptor)
    → (v.tenant_id ≡ t) × (v.canonical_id ≡ c)
    → matches t c v ≡ true
matches-of t c v (p, q) = ground (arith, eq_iff v.tenant_id t, eq_iff v.canonical_id c)

no_match : (t c : String) (v : AssetDescriptor) → v.canonical_id ≢ c → matches t c v ≡ false
no_match t c v m = ground (arith, eq_iff v.tenant_id t, eq_iff v.canonical_id c)

abbrev find : String → String → Assets → Option AssetDescriptor
find t c d = find_asset_by_canonical_id t c (values d)

-- A descriptor that is stored in place of the found one, or of none, is found next.
pub find-put :
    (t c : String) (k : String × String) (v : AssetDescriptor) (d : Assets)
    → (v.tenant_id ≡ t) × (v.canonical_id ≡ c)
    → Every Keyed d
    → ((a : AssetDescriptor) → find_asset_by_canonical_id t c (values d) ≡ some a → k ≡ key_of a)
    → find_asset_by_canonical_id t c (values (put k v d)) ≡ some v
find-put t c k v [] m e h = unfold put in find-here t c v [] (matches-of t c v m)
find-put t c k v ((j, w) ∷ d) m e h = elim (beq_cases j k) [
  | inl q ↦
      subst (λ i. find t c (put k v ((i, w) ∷ d)) ≡ some v) (sym q)
        (ap (find t c) (put-here k v w d) ∙ find-here t c v (values d) (matches-of t c v m))
  | inr (n, b) ↦ elim (Bool-cases (matches t c w)) [
    | inl y ↦ absurd (n (e.0 ∙ sym (h w (find-here t c w (values d) y))))
    | inr z ↦
        ap (find t c) (put-there j k v w d b)
        ∙ find-there t c w (values (put k v d)) z
        ∙ find-put t c k v d m e.1 (λ a p. h a (find-there t c w (values d) z ∙ p))
  ]
]

-- A descriptor of another canonical id, stored under another key, does not change what is found.
pub find-put_ne :
    (t c : String) (k : String × String) (v : AssetDescriptor) (d : Assets)
    → v.canonical_id ≢ c
    → Every Keyed d
    → ((a : AssetDescriptor) → find_asset_by_canonical_id t c (values d) ≡ some a → k ≢ key_of a)
    → find_asset_by_canonical_id t c (values (put k v d))
      ≡ find_asset_by_canonical_id t c (values d)
find-put_ne t c k v [] m e h = unfold put in find-there t c v [] (no_match t c v m)
find-put_ne t c k v ((j, w) ∷ d) m e h = elim (Bool-cases (matches t c w)) [
  | inl y ↦ elim (beq_cases j k) [
    | inl q ↦ absurd (h w (find-here t c w (values d) y) (sym q ∙ e.0))
    | inr (n, b) ↦
        ap (find t c) (put-there j k v w d b)
        ∙ find-here t c w (values (put k v d)) y
        ∙ sym (find-here t c w (values d) y)
  ]
  | inr z ↦ elim (beq_cases j k) [
    | inl q ↦
        subst (λ i. find t c (put k v ((i, w) ∷ d)) ≡ find t c ((i, w) ∷ d)) (sym q)
          (ap (find t c) (put-here k v w d)
            ∙ find-there t c v (values d) (no_match t c v m)
            ∙ sym (find-there t c w (values d) z))
    | inr (n, b) ↦
        ap (find t c) (put-there j k v w d b)
        ∙ find-there t c w (values (put k v d)) z
        ∙ find-put_ne t c k v d m e.1 (λ a p. h a (find-there t c w (values d) z ∙ p))
        ∙ sym (find-there t c w (values d) z)
  ]
]
