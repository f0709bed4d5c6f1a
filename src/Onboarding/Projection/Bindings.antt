-- ===== src/Onboarding/Projection/Bindings.antt =====
-- packages/onboarding/src/rca_onboarding/activities.py: the alias that the projection of an asset
-- writes, and what it leaves alone.
use industrial_rca.Prelude.{
  ◌||◌, ==_iff, opt_eq_refl, eq_refl, String, Bool, true, false, ◌≡◌, refl, ◌≢◌, Option, Bool-cases,
  inl, inr, string_eq, pair_eq,
}
use industrial_rca.Mar.Rows.{AssetDescriptor, AliasRow}
use industrial_rca.Mar.Repository.{InMemoryRepository}
use industrial_rca.Mar.Repository.Assets.{upsert_asset}
use industrial_rca.Mar.Repository.Aliases.{stored_alias}
use industrial_rca.Mar.Repository.Aliases.History.{find-upsert_alias, find-upsert_alias_ne}
use industrial_rca.Onboarding.Projection.Settled.{resolution_eq_refl}
use industrial_rca.Mar.Resolution.Lookups.{write_alias}
use industrial_rca.Onboarding.Rows.{DiscoveredAsset}
use industrial_rca.Onboarding.Projection.{
  ActivityDeps, save_asset, save_binding, Draw, mapping_source_of, is_none, alias_for, some,
  find_active_alias, none, binding_drifted, status_for, binding_changed,
}

pub save_asset-aliases :
    (needed : Bool) (a : AssetDescriptor) (repo : InMemoryRepository)
    → (save_asset needed a repo).aliases ≡ repo.aliases
unfolding save_asset upsert_asset
save_asset-aliases true a repo = refl
save_asset-aliases false a repo = refl

module _ (deps : ActivityDeps) (connection_id : String) where
  pub save_binding-assets :
      (asset : DiscoveredAsset) (asset_id : String) (needed : Bool) (repo : InMemoryRepository)
      → (save_binding deps connection_id asset asset_id needed repo).assets ≡ repo.assets
  unfolding save_binding write_alias
  save_binding-assets asset asset_id true repo = refl
  save_binding-assets asset asset_id false repo = refl

  -- A row that was just written is what the crawl asks for.
  written :
      (asset : DiscoveredAsset) (asset_id : String) (repo : InMemoryRepository)
      → (row : AliasRow) × (find_active_alias deps.tenant_id connection_id asset.vendor_id none
            (save_binding deps connection_id asset asset_id true repo).aliases
          ≡ some row)
        × (binding_changed row asset asset_id (status_for deps asset) ≡ false)
  unfolding save_binding write_alias alias_for stored_alias binding_changed
  written asset asset_id repo =
      let draw : Draw = deps.draw repo.write_count in
      let row : AliasRow =
        alias_for deps draw.valid_from asset asset_id connection_id (status_for deps asset) in
      (
        stored_alias draw.resolved_at draw.alias_id row,
        find-upsert_alias draw.resolved_at draw.alias_id row repo.aliases refl,
        rw
            (
              eq_refl asset_id,
              eq_refl (mapping_source_of asset),
              (==_iff asset.iso14224_class_confidence asset.iso14224_class_confidence).1 refl,
              opt_eq_refl (some asset.vendor_path),
              resolution_eq_refl (status_for deps asset),
            )
            refl,
      )

  -- What is bound once the alias is saved, if it had to be.
  pub saved_bound :
      (asset : DiscoveredAsset) (asset_id : String) (repo : InMemoryRepository)
      (o : Option AliasRow)
      → find_active_alias deps.tenant_id connection_id asset.vendor_id none repo.aliases ≡ o
      → (row : AliasRow) × (find_active_alias deps.tenant_id connection_id asset.vendor_id none
            (save_binding deps connection_id asset asset_id
              (is_none o || binding_drifted o asset asset_id (status_for deps asset))
              repo).aliases
          ≡ some row)
        × (binding_changed row asset asset_id (status_for deps asset) ≡ false)
  saved_bound asset asset_id repo none e = written asset asset_id repo
  saved_bound asset asset_id repo (some row) e =
      elim (Bool-cases (binding_changed row asset asset_id (status_for deps asset))) [
        | inl y ↦ rw y (written asset asset_id repo)
        | inr n ↦ rw n (row, unfold save_binding in e, n)
      ]

  pub kept_aliases :
      (other : DiscoveredAsset) (vendor_id asset_id : String) (needed : Bool)
      (repo : InMemoryRepository)
      → other.vendor_id ≢ vendor_id
      → find_active_alias deps.tenant_id connection_id vendor_id none
          (save_binding deps connection_id other asset_id needed repo).aliases
        ≡ find_active_alias deps.tenant_id connection_id vendor_id none repo.aliases
  unfolding save_binding write_alias alias_for
  kept_aliases other vendor_id asset_id true repo n =
      let draw : Draw = deps.draw repo.write_count in
      find-upsert_alias_ne draw.resolved_at draw.alias_id
        (alias_for deps draw.valid_from other asset_id connection_id (status_for deps other))
        repo.aliases deps.tenant_id connection_id vendor_id none n
  kept_aliases other vendor_id asset_id false repo n = refl
