-- ===== src/Onboarding/Reconcile/Outcome.antt =====
-- packages/onboarding/src/rca_onboarding/activities.py: what `_reconcile_decommission_impl` leaves
-- in the repository.
use industrial_rca.Prelude.{
  ℕ, suc, ◌+◌, ◌*◌, String, Bool, true, false, ◌≡◌, ◌≢◌, refl, sym, ap, ◌∙◌, subst, some, List, [],
  ◌∷◌, length, mem_text, keep_if, keep_if_no, keep_if_yes, map-All, All-keep_if, kept-All,
  unkept-All, not, arith, inl, inr, Bool-cases, string_eq, pair_eq, All,
}
use industrial_rca.Prelude.Dict.{get}
use industrial_rca.Mar.Rows.{AliasRow, AssetDescriptor}
use industrial_rca.Mar.Repository.{InMemoryRepository}
use industrial_rca.Mar.Repository.Assets.{decommission_asset, status_of}
use industrial_rca.Mar.Repository.Pending.{list_active_aliases_for_connection}
use industrial_rca.Onboarding.Reconcile.Supersession.{Listed, superseded_runs, rows-Listed}
use industrial_rca.Onboarding.Reconcile.{superseded_rows, reconcile_loop, reconcile_decommission}
use industrial_rca.Onboarding.Reconcile.Marks.{
  Known, IsOut, decommission-IsOut, Same, decommission_other, decommission-Known,
  decommission_keeps, decommission-aliases,
}

abbrev unseen : List String → AliasRow → Bool
unseen seen a = not (mem_text a.external_id seen)

module _ (clock : ℕ → ℕ) (tenant : String) (seen : List String) where
  -- What the loop over the given aliases makes of a repository.
  record Reconciled (active : List AliasRow) (n : ℕ) (repo : InMemoryRepository) : Type 0 where
    pub after : InMemoryRepository
    pub returns :
        reconcile_loop clock tenant seen active (n, repo)
        ≡ some (n + length (keep_if (unseen seen) active), after)
    pub out :
        All
          (λ a. unseen seen a ≡ true → Known tenant a.asset_id repo → IsOut tenant a.asset_id after)
          active
    pub stays_out : (i : String) → Known tenant i repo → IsOut tenant i repo → IsOut tenant i after
    pub rest :
        (i : String)
        → All (λ a. unseen seen a ≡ true → a.asset_id ≢ i) active
        → Same tenant i after repo

  loop_skip :
      (a : AliasRow) (active : List AliasRow) (n : ℕ) (repo : InMemoryRepository)
      → mem_text a.external_id seen ≡ true
      → reconcile_loop clock tenant seen (a ∷ active) (n, repo)
        ≡ reconcile_loop clock tenant seen active (n, repo)
  unfolding reconcile_loop
  loop_skip a active n repo m = rw (m, reconcile_loop) refl

  loop_drop :
      (a : AliasRow) (active rows : List AliasRow) (n : ℕ) (repo : InMemoryRepository)
      → mem_text a.external_id seen ≡ false
      → superseded_rows (clock (2 * n)) a.alias_id repo.aliases ≡ some rows
      → reconcile_loop clock tenant seen (a ∷ active) (n, repo)
        ≡ reconcile_loop clock tenant seen active (
          suc n,
          decommission_asset (clock (2 * n + 1)) tenant a.asset_id (record repo { aliases = rows }),
        )
  unfolding reconcile_loop
  loop_drop a active rows n repo m e = rw (m, reconcile_loop) (rw (e, reconcile_loop) refl)

  skip :
      (a : AliasRow) (active : List AliasRow) (n : ℕ) (repo : InMemoryRepository)
      → mem_text a.external_id seen ≡ true
      → Reconciled active n repo
      → Reconciled (a ∷ active) n repo
  skip a active n repo m o =
      let not_orphan : unseen seen a ≡ false = ap not m in
      record {
        after = o.after;
        returns =
            loop_skip a active n repo m
            ∙ o.returns
            ∙ ap (λ k. some (n + length k, o.after))
                (sym (keep_if_no (unseen seen) a active not_orphan));
        out = (λ u k. absurd (clash not_orphan u), o.out);
        stays_out = o.stays_out;
        rest = λ i h. o.rest i h.1;
      }
    where
      clash : unseen seen a ≡ false → unseen seen a ≡ true → ⊥
      clash not_orphan u = cc

  drop_orphan :
      (a : AliasRow) (active rows : List AliasRow) (n : ℕ) (repo : InMemoryRepository)
      → mem_text a.external_id seen ≡ false
      → superseded_rows (clock (2 * n)) a.alias_id repo.aliases ≡ some rows
      → Reconciled active (suc n) (
          decommission_asset (clock (2 * n + 1)) tenant a.asset_id (record repo { aliases = rows }))
      → Reconciled (a ∷ active) n repo
  unfolding status_of
  drop_orphan a active rows n repo m e o =
      let now = clock (2 * n + 1) in
      let mid : InMemoryRepository = record repo { aliases = rows } in
      let is_orphan : unseen seen a ≡ true = ap not m in
      record {
        after = o.after;
        returns =
            loop_drop a active rows n repo m e
            ∙ o.returns
            ∙ ap (λ k. some (k, o.after)) (one_more is_orphan);
        out = (
          λ u k.
              o.stays_out a.asset_id (decommission-Known now tenant a.asset_id a.asset_id mid k)
                (decommission-IsOut now tenant a.asset_id mid k),
          map-All _ _ active
              (λ b f u k. f u (decommission-Known now tenant a.asset_id b.asset_id mid k)) o.out,
        );
        stays_out = λ i k d.
            o.stays_out i (decommission-Known now tenant a.asset_id i mid k)
              (decommission_keeps now tenant a.asset_id i mid k d);
        rest = λ i h.
            let there = o.rest i h.1 in
            let here = decommission_other now tenant a.asset_id i mid (h.0 is_orphan) in
            (there.0 ∙ here.0, there.1 ∙ here.1);
      }
    where
      one_more :
          unseen seen a ≡ true
          → suc n + length (keep_if (unseen seen) active)
            ≡ n + length (keep_if (unseen seen) (a ∷ active))
      one_more is_orphan = rw (keep_if_yes (unseen seen) a active is_orphan) (omega arith)

  loop-Reconciled :
      (active : List AliasRow) (n : ℕ) (repo : InMemoryRepository)
      → All (λ a. Listed a.alias_id repo.aliases) active
      → Reconciled active n repo
  unfolding reconcile_loop keep_if
  loop-Reconciled [] n repo l = record {
    after = repo;
    returns = ap (λ k. some (k, repo)) (omega arith);
    out = tt;
    stays_out = λ i k d. d;
    rest = λ i h. (refl, refl);
  }
  loop-Reconciled (a ∷ active) n repo l = elim (Bool-cases (mem_text a.external_id seen)) [
    | inl m ↦ skip a active n repo m (loop-Reconciled active n repo l.1)
    | inr m ↦
        let now = clock (2 * n + 1) in
        let (rows, e, keep) = superseded_runs (clock (2 * n)) a.alias_id repo.aliases l.0 in
        let mid : InMemoryRepository = record repo { aliases = rows } in
        drop_orphan a active rows n repo m e (
          loop-Reconciled active (suc n) (decommission_asset now tenant a.asset_id mid) (
            subst (λ r. All (λ b. Listed b.alias_id r) active)
              (sym (decommission-aliases now tenant a.asset_id mid))
              (map-All _ _ active (λ b. keep b.alias_id) l.1)))
  ]

-- Whatever the repository holds, the reconciliation raises no exception. It counts the open aliases
-- of the connection whose ids the crawl has not seen; the asset of each of them, where the registry
-- has it, is decommissioned; and an asset of none of them keeps its descriptor and its status.
pub reconcile_decommissions :
    (clock : ℕ → ℕ) (tenant connection_id : String) (seen : List String) (repo : InMemoryRepository)
    → let active = list_active_aliases_for_connection tenant connection_id repo.aliases in
      let orphans = keep_if (λ a. not (mem_text a.external_id seen)) active in
      (after : InMemoryRepository) × (reconcile_decommission clock tenant connection_id seen repo
        ≡ some (length orphans, after))
      × All
          (λ a.
            (x : AssetDescriptor)
            → get (tenant, a.asset_id) repo.assets ≡ some x
            → status_of tenant a.asset_id after ≡ "decommissioned")
          orphans
      × ((i : String)
          → All (λ a. a.asset_id ≢ i) orphans
          → (get (tenant, i) after.assets ≡ get (tenant, i) repo.assets)
            × (status_of tenant i after ≡ status_of tenant i repo))
unfolding reconcile_decommission list_active_aliases_for_connection
reconcile_decommissions clock tenant connection_id seen repo =
    let active = list_active_aliases_for_connection tenant connection_id repo.aliases in
    let o = loop-Reconciled clock tenant seen active 0 repo (
      All-keep_if (λ a. Listed a.alias_id repo.aliases) _ repo.aliases
        (rows-Listed repo.aliases)) in
    (
      o.after,
      o.returns ∙ ap (λ k. some (k, o.after)) (omega arith),
      map-All _ _ _ (λ a f x e. f (x, e)) (kept-All _ (unseen seen) active o.out),
      λ i h. o.rest i (unkept-All _ (unseen seen) active h),
    )
