-- ===== src/Mar/Cache/Runs.antt =====
-- packages/mar/src/rca_mar/cache.py: the size over any interleaving of the calls.
use industrial_rca.Prelude.{
  ℕ, ◌+◌, ◌<◌, ◌≤◌, ◌≡◌, some, List, [], ◌∷◌, length, length-append, arith, Option-cases,
  Bool-cases, inl, inr, Eq, string_eq, pair_eq, ltb,
}
use industrial_rca.Prelude.Dict.{Dict, get, remove}
use industrial_rca.Mar.Cache.{Key, Data, move_to_end, lookup, store, invalidate}
use industrial_rca.Mar.Cache.Bounds.{length-evict-le}

-- What one call does between two awaits.
pub data Step {ℓ} (V : Type ℓ) : Type ℓ where
  look : ℕ → Key → Step V
  loaded : ℕ → Key → V → Step V
  dropped : Key → Step V

unfoldable pub step {ℓ} : {V : Type ℓ} → ℕ → ℕ → Step V → Data V → Data V
step maxsize ttl (look now key) d = (lookup ttl now key d).1
step maxsize ttl (loaded now key value) d = store maxsize now key value d
step maxsize ttl (dropped key) d = invalidate key d

unfoldable pub steps {ℓ} : {V : Type ℓ} → ℕ → ℕ → List (Step V) → Data V → Data V
steps maxsize ttl [] d = d
steps maxsize ttl (s ∷ rest) d = steps maxsize ttl rest (step maxsize ttl s d)

module _ {ℓ κ} {K : Type ℓ} {V : Type κ} ⦃e : Eq K⦄ where
  length-remove-le : (k : K) (d : Dict K V) → length (remove k d) ≤ length d
  unfolding remove
  length-remove-le k [] = omega arith
  length-remove-le k ((j, w) ∷ d) = elim (Bool-cases (e.beq j k)) [
    | inl y ↦ rw (y, remove) (omega (arith, length-remove-le k d))
    | inr z ↦ rw (z, remove) (omega (arith, length-remove-le k d))
  ]

  length-remove-lt :
      (k : K) (d : Dict K V) (v : V) → get k d ≡ some v → length (remove k d) < length d
  unfolding remove get
  length-remove-lt k [] v h = cc
  length-remove-lt k ((j, w) ∷ d) v h = elim (Bool-cases (e.beq j k)) [
    | inl y ↦ rw (y, remove) (omega (arith, length-remove-le k d))
    | inr z ↦ rw (z, remove) (omega (arith, length-remove-lt k d v (rw z at h)))
  ]

module _ {ℓ} {V : Type ℓ} where
  length-move_to_end-le : (key : Key) (d : Data V) → length (move_to_end key d) ≤ length d
  unfolding move_to_end
  length-move_to_end-le key d = elim (Option-cases (get key d)) [
    | inl n ↦ rw (n, move_to_end) (omega arith)
    | inr (x, h) ↦
        rw (h, move_to_end)
          (omega (arith, length-append (remove key d) ((key, x) ∷ []), length-remove-lt key d x h))
  ]

  length-lookup-le :
      (ttl now : ℕ) (key : Key) (d : Data V) → length (lookup ttl now key d).1 ≤ length d
  unfolding lookup
  length-lookup-le ttl now key d = elim (Option-cases (get key d)) [
    | inl n ↦ rw (n, lookup) (omega arith)
    | inr ((t, v), h) ↦ elim (Bool-cases (ltb now (t + ttl))) [
      | inl y ↦ rw (h, lookup) (rw y (length-move_to_end-le key d))
      | inr z ↦ rw (h, lookup) (rw z (omega arith))
    ]
  ]

  length-step :
      (maxsize ttl : ℕ) (s : Step V) (d : Data V)
      → length d ≤ maxsize
      → length (step maxsize ttl s d) ≤ maxsize
  unfolding step store invalidate
  length-step maxsize ttl (look now key) d h = omega (arith, length-lookup-le ttl now key d)
  length-step maxsize ttl (loaded now key value) d h = length-evict-le maxsize _
  length-step maxsize ttl (dropped key) d h = omega (arith, length-remove-le key d)

  -- From a cache of at most `maxsize` entries, however the calls interleave, there are at most
  -- `maxsize` entries after each.
  pub length-steps :
      (maxsize ttl : ℕ) (calls : List (Step V)) (d : Data V)
      → length d ≤ maxsize
      → length (steps maxsize ttl calls d) ≤ maxsize
  unfolding steps
  length-steps maxsize ttl [] d h = h
  length-steps maxsize ttl (s ∷ rest) d h =
      length-steps maxsize ttl rest (step maxsize ttl s d) (length-step maxsize ttl s d h)
