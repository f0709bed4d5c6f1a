-- ===== src/Mar/Cache/Bounds.antt =====
-- packages/mar/src/rca_mar/cache.py: the bound on the size and the age of a hit.
use industrial_rca.Prelude.{
  Eq, subst, ap, ◌∙◌, lt→ltb, ltb→lt, ℕ, ◌+◌, ◌<◌, ◌≤◌, ◌≡◌, refl, none, some, List, [], ◌∷◌, ◌++◌,
  ltb, length, arith, Option-cases, Bool-cases, inl, inr, string_eq, pair_eq, some_unique,
}
use industrial_rca.Prelude.Dict.{Dict, get, put, remove, get-put_self, get-remove}
use industrial_rca.Mar.Cache.{Key, Data, move_to_end, evict, lookup, store}

module _ {ℓ} {A : Type ℓ} where
  pub length-evict-le : (n : ℕ) (d : List A) → length (evict n d) ≤ n
  unfolding evict
  length-evict-le n [] = omega arith
  length-evict-le n (x ∷ d) = ground (arith, length-evict-le n d)

  -- The last entry is the last to go.
  evict-last :
      (n : ℕ) (d : List A) (x : A)
      → 1 ≤ n
      → (gone : List A) × (front : List A) × (d ≡ gone ++ front)
        × (evict n (d ++ x ∷ []) ≡ front ++ x ∷ [])
  unfolding evict
  evict-last n [] x h = ([], [], refl, ground arith)
  evict-last n (y ∷ d) x h = elim (Bool-cases (ltb n (length (y ∷ d ++ x ∷ [])))) [
    | inr z ↦ ([], y ∷ d, refl, rw (z, evict) refl)
    | inl z ↦
        let (gone, front, q, w) = evict-last n d x h in
        (y ∷ gone, front, ap (◌∷◌ y) q, rw (z, evict) w)
  ]

module _ {ℓ κ} {K : Type ℓ} {V : Type κ} ⦃e : Eq K⦄ where
  get-end : (k : K) (d : Dict K V) (v : V) → get k d ≡ none → get k (d ++ (k, v) ∷ []) ≡ some v
  unfolding get
  get-end k [] v n = rw ((e.beq_iff k k).1 refl) refl
  get-end k ((j, w) ∷ d) v n = elim (Bool-cases (e.beq j k)) [
    | inl y ↦ let n' : some w ≡ none = rw y at n in cc
    | inr z ↦ rw z (get-end k d v (rw z at n))
  ]

  get-suffix : (k : K) (front back : Dict K V) → get k (front ++ back) ≡ none → get k back ≡ none
  unfolding get
  get-suffix k [] back n = n
  get-suffix k ((j, w) ∷ d) back n = elim (Bool-cases (e.beq j k)) [
    | inl y ↦ let n' : some w ≡ none = rw y at n in cc
    | inr z ↦ get-suffix k d back (rw z at n)
  ]

  removed : (k : K) (d : Dict K V) → get k (remove k d) ≡ none
  removed k d = get-remove k k d ∙ rw ((e.beq_iff k k).1 refl) refl

module _ {ℓ} {V : Type ℓ} where
  moved :
      (key : Key) (d : Data V) (entry : ℕ × V)
      → get key d ≡ some entry
      → move_to_end key d ≡ remove key d ++ (key, entry) ∷ []
  unfolding move_to_end
  moved key d entry h = rw (h, move_to_end) refl

  lookup-hit :
      (ttl now : ℕ) (key : Key) (d : Data V) (t : ℕ) (v : V)
      → get key d ≡ some (t, v)
      → now < t + ttl
      → (lookup ttl now key d).0 ≡ some v
  unfolding lookup
  lookup-hit ttl now key d t v g h = rw (g, lookup) (rw (lt→ltb now (t + ttl) h) refl)

  get-store :
      (maxsize now : ℕ) (key : Key) (value : V) (d : Data V)
      → 1 ≤ maxsize
      → get key (store maxsize now key value d) ≡ some (now, value)
  unfolding store
  get-store maxsize now key value d m =
      let all = put key (now, value) d in
      let (gone, front, q, w) = evict-last maxsize (remove key all) (key, (now, value)) m in
      rw (moved key all (now, value) (get-put_self key (now, value) d)) (
        rw w (
          get-end key front (now, value)
            (get-suffix key gone front (subst (λ x. get key x ≡ none) q (removed key all)))))

  -- Whatever a cache of at least one place held before, once a value is stored it holds at most
  -- `maxsize` entries, and a lookup of that key before the value's time is up answers the value.
  pub store-lookup :
      (maxsize ttl now later : ℕ) (key : Key) (value : V) (d : Data V)
      → 1 ≤ maxsize
      → later < now + ttl
      → (length (store maxsize now key value d) ≤ maxsize)
        × ((lookup ttl later key (store maxsize now key value d)).0 ≡ some value)
  unfolding store
  store-lookup maxsize ttl now later key value d m h = (
    length-evict-le maxsize _,
    lookup-hit ttl later key _ now value (get-store maxsize now key value d m) h,
  )

  -- A hit answers a value that the cache holds for the key and that is younger than the time to
  -- live.
  pub lookup_young :
      (ttl now : ℕ) (key : Key) (d : Data V) (v : V)
      → (lookup ttl now key d).0 ≡ some v
      → (t : ℕ) × (get key d ≡ some (t, v)) × (now < t + ttl)
  unfolding lookup
  lookup_young ttl now key d v h = elim (Option-cases (get key d)) [
    | inl e ↦ let h' : none ≡ some v = rw (e, lookup) at h in cc
    | inr ((t, w), e) ↦ elim (Bool-cases (ltb now (t + ttl))) [
      | inr n ↦ let h' : none ≡ some v = rw n at (rw (e, lookup) at h) in cc
      | inl y ↦
          let h' : some w ≡ some v = rw y at (rw (e, lookup) at h) in
          (t, e ∙ ap (λ x. some (t, x)) (some_unique refl h'), ltb→lt now (t + ttl) y)
    ]
  ]
