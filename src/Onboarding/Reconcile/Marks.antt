-- ===== src/Onboarding/Reconcile/Marks.antt =====
-- packages/mar/src/rca_mar/repository.py: what `decommission_asset` leaves of every asset and its
-- status.
use industrial_rca.Prelude.{
  ℕ, suc, String, ◌≡◌, ◌≢◌, refl, sym, ap, ◌∙◌, ◌⊎◌, subst, some, inl, inr, Option-cases, beq_cases,
  string_eq, pair_eq,
}
use industrial_rca.Prelude.Dict.{get, put, get-put_self, get-put_ne}
use industrial_rca.Mar.Rows.{AssetDescriptor}
use industrial_rca.Mar.Repository.{InMemoryRepository}
use industrial_rca.Mar.Repository.Assets.{decommission_asset, status_of}

abbrev pub Known : String → String → InMemoryRepository → Type 0
Known tenant i repo = (x : AssetDescriptor) × (get (tenant, i) repo.assets ≡ some x)

abbrev pub IsOut : String → String → InMemoryRepository → Type 0
IsOut tenant i repo = status_of tenant i repo ≡ "decommissioned"

-- The repository with a known asset marked.
abbrev pub marked : ℕ → String → String → AssetDescriptor → InMemoryRepository → InMemoryRepository
marked now tenant i x repo = record repo {
  write_count = suc repo.write_count;
  asset_status = put (tenant, i) "decommissioned" repo.asset_status;
  assets = put (tenant, i) (record x { decommissioned_at = some now }) repo.assets;
}

pub decommission-cases :
    (now : ℕ) (tenant i : String) (repo : InMemoryRepository)
    → (decommission_asset now tenant i repo ≡ repo)
      ⊎ ((x : AssetDescriptor) × (decommission_asset now tenant i repo
            ≡ marked now tenant i x repo))
unfolding decommission_asset
decommission-cases now tenant i repo = elim (Option-cases (get (tenant, i) repo.assets)) [
  | inl e ↦ inl (rw (e, decommission_asset) refl)
  | inr (x, e) ↦ inr (x, rw (e, decommission_asset) refl)
]

-- An asset that is decommissioned has that status, and any other asset is as it was.
pub decommission-IsOut :
    (now : ℕ) (tenant i : String) (repo : InMemoryRepository)
    → Known tenant i repo
    → IsOut tenant i (decommission_asset now tenant i repo)
unfolding decommission_asset status_of
decommission-IsOut now tenant i repo (x, e) =
    let q : decommission_asset now tenant i repo ≡ marked now tenant i x repo =
      rw (e, decommission_asset) refl in
    subst (IsOut tenant i) (sym q)
      (rw (get-put_self (tenant, i) "decommissioned" repo.asset_status, status_of) refl)

abbrev pub Same : String → String → InMemoryRepository → InMemoryRepository → Type 0
Same tenant j after before =
    (get (tenant, j) after.assets ≡ get (tenant, j) before.assets)
    × (status_of tenant j after ≡ status_of tenant j before)

pub marked_other :
    (now : ℕ) (tenant i j : String) (x : AssetDescriptor) (repo : InMemoryRepository)
    → i ≢ j
    → Same tenant j (marked now tenant i x repo) repo
unfolding status_of
marked_other now tenant i j x repo n =
    let m : (tenant, i) ≢ (tenant, j) = λ q. n (ap (λ p. p.1) q) in
    let same : get (tenant, j) (put (tenant, i) "decommissioned" repo.asset_status)
        ≡ get (tenant, j) repo.asset_status =
      get-put_ne (tenant, i) (tenant, j) "decommissioned" repo.asset_status m in
    (get-put_ne (tenant, i) (tenant, j) _ repo.assets m, rw (same, status_of) refl)

pub decommission_other :
    (now : ℕ) (tenant i j : String) (repo : InMemoryRepository)
    → i ≢ j
    → Same tenant j (decommission_asset now tenant i repo) repo
decommission_other now tenant i j repo n = elim (decommission-cases now tenant i repo) [
  | inl q ↦ subst (λ r. Same tenant j r repo) (sym q) (refl, refl)
  | inr (x, q) ↦ subst (λ r. Same tenant j r repo) (sym q) (marked_other now tenant i j x repo n)
]

pub decommission-Known :
    (now : ℕ) (tenant i j : String) (repo : InMemoryRepository)
    → Known tenant j repo
    → Known tenant j (decommission_asset now tenant i repo)
decommission-Known now tenant i j repo (y, k) = elim (beq_cases i j) [
  | inr (n, _) ↦ (y, (decommission_other now tenant i j repo n).0 ∙ k)
  | inl same ↦ elim (decommission-cases now tenant i repo) [
    | inl q ↦ subst (Known tenant j) (sym q) (y, k)
    | inr (x, q) ↦ subst (Known tenant j) (sym q) (
        subst (λ h. Known tenant h (marked now tenant i x repo)) same
          (_, get-put_self (tenant, i) (record x { decommissioned_at = some now }) repo.assets))
  ]
]

pub decommission_keeps :
    (now : ℕ) (tenant i j : String) (repo : InMemoryRepository)
    → Known tenant j repo
    → IsOut tenant j repo
    → IsOut tenant j (decommission_asset now tenant i repo)
decommission_keeps now tenant i j repo k o = elim (beq_cases i j) [
  | inr (n, _) ↦ (decommission_other now tenant i j repo n).1 ∙ o
  | inl same ↦
      subst (λ h. IsOut tenant h (decommission_asset now tenant i repo)) same
        (decommission-IsOut now tenant i repo (subst (λ h. Known tenant h repo) (sym same) k))
]

pub decommission-aliases :
    (now : ℕ) (tenant i : String) (repo : InMemoryRepository)
    → (decommission_asset now tenant i repo).aliases ≡ repo.aliases
decommission-aliases now tenant i repo = elim (decommission-cases now tenant i repo) [
  | inl q ↦ ap (λ r. r.aliases) q
  | inr (x, q) ↦ ap (λ r. r.aliases) q
]
