-- ===== src/Prelude/Dict.antt =====
-- Python's `dict`, in insertion order: `d[k] = v` keeps the place of a key that is there and
-- appends a new one, `pop` removes the key.
use mathlib.Core.Path.{◌≡◌, refl, subst, sym}
use mathlib.Core.Logic.{◌⊎◌, ◌≢◌, inl, inr}
use mathlib.Core.Bool.{false}
use mathlib.Core.Option.{Option, none, some}
use mathlib.Core.List.{List, [], ◌∷◌}
use native.Mathlib.Omega.{arith}
use industrial_rca.Prelude.Tests.{some_unique, Eq, beq_cases, Bool-cases, if◌then◌else◌}

abbrev pub Dict {ℓ κ} : Type ℓ → Type κ → Type (ℓ ⊔ κ)
Dict K V = List (K × V)

module _ {ℓ κ} {K : Type ℓ} {V : Type κ} where
  abbrev pub values : Dict K V → List V
  values [] = []
  values ((k, v) ∷ d) = v ∷ values d

module _ {ℓ κ} {K : Type ℓ} {V : Type κ} ⦃e : Eq K⦄ where
  unfoldable pub get : K → Dict K V → Option V
  get k [] = none
  get k ((j, v) ∷ d) = if e.beq j k then some v else get k d

  unfoldable pub put : K → V → Dict K V → Dict K V
  put k v [] = (k, v) ∷ []
  put k v ((j, w) ∷ d) = if e.beq j k then (k, v) ∷ d else (j, w) ∷ put k v d

  unfoldable pub remove : K → Dict K V → Dict K V
  remove k [] = []
  remove k ((j, w) ∷ d) = let rest = remove k d in if e.beq j k then rest else (j, w) ∷ rest

  pub get-put :
      (k j : K) (v : V) (d : Dict K V) → get j (put k v d) ≡ (if e.beq k j then some v else get j d)
  unfolding get put
  get-put k j v [] = refl
  get-put k j v ((i, w) ∷ d) =
      ground (arith, e.beq_iff k j, e.beq_iff i k, e.beq_iff i j, get-put k j v d)

  pub get-remove :
      (k j : K) (d : Dict K V) → get j (remove k d) ≡ (if e.beq k j then none else get j d)
  unfolding get remove
  get-remove k j [] = ground arith
  get-remove k j ((i, w) ∷ d) =
      ground (arith, get-remove k j d, e.beq_iff i k, e.beq_iff i j, e.beq_iff k j)

  -- Each key stands once, as in a real dictionary.
  abbrev pub Unique : Dict K V → Type κ
  Unique [] = Unit
  Unique ((k, v) ∷ d) = (get k d ≡ none) × Unique d

  pub put-Unique : (k : K) (v : V) (d : Dict K V) → Unique d → Unique (put k v d)
  unfolding get put
  put-Unique k v [] u = (refl, tt)
  put-Unique k v ((j, w) ∷ d) u = elim (beq_cases j k) [
    | inl q ↦ rw ((e.beq_iff j k).1 q) (rw (← q) u.0, u.1)
    | inr (n, b) ↦
        rw b
          (ground (arith, get-put k j v d, u.0, e.beq_iff k j, e.beq_iff j k), put-Unique k v d u.1)
  ]

  pub remove-Unique : (k : K) (d : Dict K V) → Unique d → Unique (remove k d)
  unfolding remove
  remove-Unique k [] u = tt
  remove-Unique k ((j, w) ∷ d) u = elim (Bool-cases (e.beq j k)) [
    | inl q ↦ rw q (remove-Unique k d u.1)
    | inr n ↦ rw n (ground (arith, get-remove k j d, u.0), remove-Unique k d u.1)
  ]

  -- What a key holds after `d[k] = v`: the new value at `k`, the old one elsewhere.
  pub get-put_cases :
      (k j : K) (v : V) (d : Dict K V) {r : V}
      → get j (put k v d) ≡ some r
      → ((k ≡ j) × (v ≡ r)) ⊎ ((k ≢ j) × (get j d ≡ some r))
  get-put_cases k j v d h = elim (beq_cases k j) [
    | inl q ↦ inl (q, ground (arith, get-put k j v d, e.beq_iff k j))
    | inr (n, b) ↦ inr (n, ground (arith, get-put k j v d))
  ]

  pub get-remove_cases :
      (k j : K) (d : Dict K V) {r : V} → get j (remove k d) ≡ some r → (k ≢ j) × (get j d ≡ some r)
  get-remove_cases k j d h = elim (beq_cases k j) [
    | inl q ↦ absurd (ground (arith, get-remove k j d, e.beq_iff k j))
    | inr (n, b) ↦ (n, ground (arith, get-remove k j d))
  ]

  pub get-put_self : (k : K) (v : V) (d : Dict K V) → get k (put k v d) ≡ some v
  get-put_self k v d = ground (arith, get-put k k v d, e.beq_iff k k)

  pub get-put_ne : (k j : K) (v : V) (d : Dict K V) → k ≢ j → get j (put k v d) ≡ get j d
  get-put_ne k j v d n = ground (arith, get-put k j v d, e.beq_iff k j)

  -- What holds of every entry.
  abbrev pub Every {μ} : (K → V → Type μ) → Dict K V → Type μ
  Every P [] = Unit
  Every P ((k, v) ∷ d) = P k v × Every P d

  pub put-Every {μ} :
      (P : K → V → Type μ) (k : K) (v : V) (d : Dict K V) → P k v → Every P d → Every P (put k v d)
  unfolding put
  put-Every P k v [] h a = (h, tt)
  put-Every P k v ((j, w) ∷ d) h a = elim (Bool-cases (e.beq j k)) [
    | inl y ↦ rw (y, put) (h, a.1)
    | inr n ↦ rw (n, put) (a.0, put-Every P k v d h a.1)
  ]

  pub get-Every {μ} :
      (P : K → V → Type μ) (k : K) (v : V) (d : Dict K V) → get k d ≡ some v → Every P d → P k v
  unfolding get
  get-Every P k v [] h a = cc
  get-Every P k v ((j, w) ∷ d) h a = elim (Bool-cases (e.beq j k)) [
    | inl y ↦
        let same : w ≡ v = some_unique refl (rw y at h) in
        subst (λ x. P k x) same (subst (λ i. P i w) ((e.beq_iff j k).0 y) a.0)
    | inr n ↦ get-Every P k v d (rw n at h) a.1
  ]

  pub get-head : (k : K) (v : V) (d : Dict K V) → get k ((k, v) ∷ d) ≡ some v
  unfolding get
  get-head k v d = rw ((e.beq_iff k k).1 refl) refl

  -- A key that stands behind another one is another key, where each stands once.
  pub get-tail :
      (j k : K) (v w : V) (d : Dict K V)
      → get j d ≡ none
      → get k d ≡ some w
      → get k ((j, v) ∷ d) ≡ some w
  unfolding get
  get-tail j k v w d n h = elim (beq_cases j k) [
    | inl q ↦ absurd (clash (subst (λ i. get i d ≡ some w) (sym q) h))
    | inr (m, b) ↦ rw b h
  ]
    where
      clash : get j d ≡ some w → ⊥
      clash p = cc

  pub put-here : (k : K) (v w : V) (d : Dict K V) → put k v ((k, w) ∷ d) ≡ (k, v) ∷ d
  unfolding put
  put-here k v w d = rw ((e.beq_iff k k).1 refl, put) refl

  pub put-there :
      (j k : K) (v w : V) (d : Dict K V)
      → e.beq j k ≡ false
      → put k v ((j, w) ∷ d) ≡ (j, w) ∷ put k v d
  unfolding put
  put-there j k v w d b = rw (b, put) refl

  abbrev pub Has : K → Dict K V → Type κ
  Has k d = (v : V) × (get k d ≡ some v)

  pub put-Has : (j k : K) (v : V) (d : Dict K V) → Has k d → Has k (put j v d)
  put-Has j k v d (w, h) = elim (beq_cases j k) [
    | inl q ↦ subst (λ i. Has i (put j v d)) q (v, get-put_self j v d)
    | inr (n, _) ↦ (w, rw (get-put_ne j k v d n) h)
  ]
