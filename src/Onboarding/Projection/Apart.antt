-- ===== src/Onboarding/Projection/Apart.antt =====
-- packages/onboarding/src/rca_onboarding/activities.py: the projection of one asset, the registry it
-- leaves, and what it leaves alone of another asset.
use industrial_rca.Prelude.{
  ◌||◌, String, Bool, true, false, ◌≡◌, refl, ◌∙◌, sym, subst, ap, ◌≢◌, some_unique, Option,
  Option-cases, Bool-cases, inl, inr, string_eq, pair_eq,
}
use industrial_rca.Prelude.Dict.{get, values, Unique, Every, put-Every, get-Every, put-Unique}
use industrial_rca.Mar.Rows.{AssetDescriptor}
use industrial_rca.Mar.Repository.{InMemoryRepository}
use industrial_rca.Mar.Repository.Assets.{upsert_asset, find_asset_by_canonical_id}
use industrial_rca.Mar.Repository.Registry.{
  Assets, Keyed, key_of, found_matches, found-get, find-put, find-put_ne,
}
use industrial_rca.Onboarding.Projection.Bindings.{
  save_asset-aliases, save_binding-assets, saved_bound, kept_aliases,
}
use industrial_rca.Onboarding.Projection.Settled.{Settled, descriptor_changed_refl}
use industrial_rca.Onboarding.Rows.{DiscoveredAsset, ProjectionCounts}
use industrial_rca.Onboarding.Projection.{
  ActivityDeps, descriptor_for, save_asset, project_asset, existing_id, is_none, asset_drifted,
  some, find_active_alias, descriptor_changed, none, binding_drifted, status_for,
}

module _ (deps : ActivityDeps) where
  -- An asset that has the id minted from a canonical id has that canonical id.
  abbrev pub Minted : String × String → AssetDescriptor → Type 0
  Minted k a = (c : String) → a.asset_id ≡ deps.uuid5 c → a.canonical_id ≡ c

  pub record IsRegistry (d : Assets) : Type 0 where
    pub unique : Unique d
    pub keyed : Every Keyed d
    pub minted : Every Minted d

module _ (deps : ActivityDeps) (injective : (b c : String) → deps.uuid5 b ≡ deps.uuid5 c → b ≡ c)
    (plant_id connection_id : String) where
  -- What `project_asset` proposes in a repository, and the asset table and the aliases after it.
  abbrev found : DiscoveredAsset → InMemoryRepository → Option AssetDescriptor
  found asset repo =
      find_asset_by_canonical_id deps.tenant_id asset.proposed_canonical_id (values repo.assets)

  abbrev proposal : DiscoveredAsset → InMemoryRepository → AssetDescriptor
  proposal asset repo = descriptor_for deps plant_id asset (existing_id (found asset repo))

  proposal_names :
      (asset : DiscoveredAsset) (o : Option AssetDescriptor)
      → ((descriptor_for deps plant_id asset (existing_id o)).tenant_id ≡ deps.tenant_id)
        × ((descriptor_for deps plant_id asset (existing_id o)).canonical_id
            ≡ asset.proposed_canonical_id)
  unfolding descriptor_for
  proposal_names asset o = (refl, refl)

  proposal-Minted :
      (asset : DiscoveredAsset) (repo : InMemoryRepository)
      → IsRegistry deps repo.assets
      → Minted deps (key_of (proposal asset repo)) (proposal asset repo)
  unfolding descriptor_for
  proposal-Minted asset repo r c h = elim (Option-cases (found asset repo)) [
    | inl e ↦ injective asset.proposed_canonical_id c (rw e at h)
    | inr (a, e) ↦
        sym (found_matches deps.tenant_id asset.proposed_canonical_id repo.assets a e).1
        ∙ get-Every (Minted deps) (key_of a) a repo.assets
            (found-get deps.tenant_id asset.proposed_canonical_id repo.assets a r.unique r.keyed e)
            r.minted c (rw e at h)
  ]

  save_asset-IsRegistry :
      (needed : Bool) (asset : DiscoveredAsset) (repo : InMemoryRepository)
      → IsRegistry deps repo.assets
      → IsRegistry deps (save_asset needed (proposal asset repo) repo).assets
  unfolding save_asset upsert_asset
  save_asset-IsRegistry true asset repo r = record {
    unique = put-Unique (key_of (proposal asset repo)) (proposal asset repo) repo.assets r.unique;
    keyed =
        put-Every Keyed (key_of (proposal asset repo)) (proposal asset repo) repo.assets refl
          r.keyed;
    minted =
        put-Every (Minted deps) (key_of (proposal asset repo)) (proposal asset repo) repo.assets
          (proposal-Minted asset repo r) r.minted;
  }
  save_asset-IsRegistry false asset repo r = r

  pub project-IsRegistry :
      (asset : DiscoveredAsset) (counts : ProjectionCounts) (repo : InMemoryRepository)
      → IsRegistry deps repo.assets
      → IsRegistry deps (project_asset deps plant_id connection_id asset (counts, repo)).1.assets
  unfolding project_asset
  project-IsRegistry asset counts repo r =
      subst (IsRegistry deps) (sym (save_binding-assets deps connection_id asset _ _ _))
        (save_asset-IsRegistry _ asset repo r)

  -- What is registered once the asset is saved, if it had to be.
  saved_found :
      (asset : DiscoveredAsset) (repo : InMemoryRepository) (o : Option AssetDescriptor)
      → found asset repo ≡ o
      → IsRegistry deps repo.assets
      → (a : AssetDescriptor) × (found asset (
            save_asset
              (is_none o || asset_drifted o (descriptor_for deps plant_id asset (existing_id o)))
              (descriptor_for deps plant_id asset (existing_id o))
              repo)
          ≡ some a)
        × (a.asset_id ≡ (descriptor_for deps plant_id asset (existing_id o)).asset_id)
        × (descriptor_changed a (descriptor_for deps plant_id asset (some a.asset_id)) ≡ false)
  unfolding save_asset upsert_asset descriptor_for
  saved_found asset repo none e r =
      let p = descriptor_for deps plant_id asset none in
      (
        p,
        find-put deps.tenant_id asset.proposed_canonical_id (key_of p) p repo.assets (refl, refl)
            r.keyed (λ a h. absurd (clash a e h)),
        refl,
        descriptor_changed_refl p,
      )
    where
      clash : (a : AssetDescriptor) → found asset repo ≡ none → found asset repo ≡ some a → ⊥
      clash a e h = cc
  saved_found asset repo (some a) e r =
      let p = descriptor_for deps plant_id asset (some a.asset_id) in
      elim (Bool-cases (descriptor_changed a p)) [
        | inl y ↦ rw y (
          p,
          find-put deps.tenant_id asset.proposed_canonical_id (key_of p) p repo.assets (refl, refl)
              r.keyed (λ b h. same_key b (some_unique e h)),
          refl,
          descriptor_changed_refl p,
        )
        | inr n ↦ rw n (a, e, refl, n)
      ]
    where
      same_key : (b : AssetDescriptor) → a ≡ b → (deps.tenant_id, a.asset_id) ≡ key_of b
      same_key b q =
          let (m, _) = found_matches deps.tenant_id asset.proposed_canonical_id repo.assets a e in
          ap (λ t. (t, a.asset_id)) (sym m) ∙ ap key_of q

  -- An asset that is projected is settled.
  pub project_settles :
      (asset : DiscoveredAsset) (counts : ProjectionCounts) (repo : InMemoryRepository)
      → IsRegistry deps repo.assets
      → Settled deps plant_id connection_id asset
          (project_asset deps plant_id connection_id asset (counts, repo)).1
  unfolding project_asset
  project_settles asset counts repo r =
      let (a, f, i, d) = saved_found asset repo (found asset repo) refl r in
      let (row, b, c) =
        saved_bound deps connection_id asset (proposal asset repo).asset_id _
          (find_active_alias deps.tenant_id connection_id asset.vendor_id none repo.aliases)
          (ap (find_active_alias deps.tenant_id connection_id asset.vendor_id none)
            (save_asset-aliases _ (proposal asset repo) repo)) in
      record {
        registered = a;
        binding = row;
        is_registered =
            ap
              (λ t.
                find_asset_by_canonical_id deps.tenant_id asset.proposed_canonical_id (values t))
              (save_binding-assets deps connection_id asset _ _ _)
            ∙ f;
        is_bound = b;
        same_asset = d;
        same_binding = rw i c;
      }

  -- The key that an asset is written under is not that of a row of another canonical id.
  other_key :
      (asset : DiscoveredAsset) (repo : InMemoryRepository) (a : AssetDescriptor)
      → IsRegistry deps repo.assets
      → get (key_of a) repo.assets ≡ some a
      → asset.proposed_canonical_id ≢ a.canonical_id
      → key_of (proposal asset repo) ≢ key_of a
  unfolding descriptor_for
  other_key asset repo a r g n q = elim (Option-cases (found asset repo)) [
    | inl e ↦ n (
        sym (
          get-Every (Minted deps) (key_of a) a repo.assets g r.minted asset.proposed_canonical_id
            (sym (ap (λ k. k.1) (rw e at q)))))
    | inr (b, e) ↦
        let (t, c) = found_matches deps.tenant_id asset.proposed_canonical_id repo.assets b e in
        let same : key_of b ≡ key_of a = ap (λ x. (x, b.asset_id)) t ∙ rw e at q in
        let at_b : get (key_of b) repo.assets ≡ some b =
          found-get deps.tenant_id asset.proposed_canonical_id repo.assets b r.unique r.keyed e in
        n (
          sym c
          ∙ ap (λ x. x.canonical_id) (some_unique at_b (ap (λ k. get k repo.assets) same ∙ g)))
  ]

  kept_found :
      (other : DiscoveredAsset) (c : String) (needed : Bool) (repo : InMemoryRepository)
      → IsRegistry deps repo.assets
      → other.proposed_canonical_id ≢ c
      → find_asset_by_canonical_id deps.tenant_id c
          (values (save_asset needed (proposal other repo) repo).assets)
        ≡ find_asset_by_canonical_id deps.tenant_id c (values repo.assets)
  unfolding save_asset upsert_asset
  kept_found other c true repo r n =
      find-put_ne deps.tenant_id c (key_of (proposal other repo)) (proposal other repo) repo.assets
        (λ q. n (sym (proposal_names other (found other repo)).1 ∙ q)) r.keyed
        (λ a h.
          other_key other repo a r (found-get deps.tenant_id c repo.assets a r.unique r.keyed h)
            (λ q. n (q ∙ (found_matches deps.tenant_id c repo.assets a h).1)))
  kept_found other c false repo r n = refl

  abbrev saved : DiscoveredAsset → InMemoryRepository → InMemoryRepository
  saved asset repo =
      save_asset
        (is_none (found asset repo) || asset_drifted (found asset repo) (proposal asset repo))
        (proposal asset repo) repo

  abbrev bound : DiscoveredAsset → InMemoryRepository → Bool
  bound asset repo =
      let o = find_active_alias deps.tenant_id connection_id asset.vendor_id none repo.aliases in
      is_none o || binding_drifted o asset (proposal asset repo).asset_id (status_for deps asset)

  -- An asset that is settled stays so when another one is projected.
  pub project_keeps :
      (asset other : DiscoveredAsset) (counts : ProjectionCounts) (repo : InMemoryRepository)
      → IsRegistry deps repo.assets
      → other.vendor_id ≢ asset.vendor_id
      → other.proposed_canonical_id ≢ asset.proposed_canonical_id
      → Settled deps plant_id connection_id asset repo
      → Settled deps plant_id connection_id asset
          (project_asset deps plant_id connection_id other (counts, repo)).1
  unfolding project_asset
  project_keeps asset other counts repo r n m s = record {
    registered = s.registered;
    binding = s.binding;
    is_registered =
        ap (λ t. find_asset_by_canonical_id deps.tenant_id asset.proposed_canonical_id (values t))
          (save_binding-assets deps connection_id other (proposal other repo).asset_id
            (bound other repo) (saved other repo))
        ∙ kept_found other asset.proposed_canonical_id
            (is_none (found other repo) || asset_drifted (found other repo) (proposal other repo))
            repo r m
        ∙ s.is_registered;
    is_bound =
        kept_aliases deps connection_id other asset.vendor_id (proposal other repo).asset_id
          (bound other repo) (saved other repo) n
        ∙ ap (find_active_alias deps.tenant_id connection_id asset.vendor_id none)
            (save_asset-aliases _ (proposal other repo) repo)
        ∙ s.is_bound;
    same_asset = s.same_asset;
    same_binding = s.same_binding;
  }
