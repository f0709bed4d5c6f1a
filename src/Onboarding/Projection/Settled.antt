-- ===== src/Onboarding/Projection/Settled.antt =====
-- packages/onboarding/src/rca_onboarding/activities.py: after an asset is projected it is registered
-- and bound as the crawl found it, and projecting it again writes nothing.
use industrial_rca.Prelude.{
  String, true, false, ◌≡◌, refl, none, some, opt_eq_refl, eq_refl, string_eq, pair_eq, ==_iff,
}
use industrial_rca.Prelude.Dict.{values}
use industrial_rca.Mar.Rows.{
  AssetDescriptor, AliasRow, ResolutionStatus, auto_resolved, pending_review, human_validated,
  rejected, superseded, unlisted,
}
use industrial_rca.Mar.Repository.{InMemoryRepository}
use industrial_rca.Mar.Repository.Aliases.{find_active_alias}
use industrial_rca.Mar.Repository.Assets.{find_asset_by_canonical_id}
use industrial_rca.Onboarding.Rows.{DiscoveredAsset, ProjectionCounts}
use industrial_rca.Onboarding.Projection.{
  ActivityDeps, descriptor_for, descriptor_changed, binding_changed, status_for, resolution_eq,
  save_asset, save_binding, count_asset, project_asset,
}

pub descriptor_changed_refl : (a : AssetDescriptor) → descriptor_changed a a ≡ false
unfolding descriptor_changed
descriptor_changed_refl a =
    rw
      (
        eq_refl a.canonical_id,
        eq_refl a.plant_id,
        eq_refl a.iso14224_class,
        (==_iff a.iso14224_level a.iso14224_level).1 refl,
        eq_refl a.tag,
        eq_refl a.criticality,
        opt_eq_refl a.manufacturer,
        opt_eq_refl a.model,
        opt_eq_refl a.serial_number,
        opt_eq_refl a.description,
      )
      refl

pub resolution_eq_refl : (s : ResolutionStatus) → resolution_eq s s ≡ true
unfolding resolution_eq
resolution_eq_refl auto_resolved = refl
resolution_eq_refl pending_review = refl
resolution_eq_refl human_validated = refl
resolution_eq_refl rejected = refl
resolution_eq_refl superseded = refl
resolution_eq_refl (unlisted s) = eq_refl s

module _ (deps : ActivityDeps) (plant_id connection_id : String) where
  -- The registered asset and the open alias that a crawled asset would be given are there already.
  pub record Settled (asset : DiscoveredAsset) (repo : InMemoryRepository) : Type 0 where
    pub registered : AssetDescriptor
    pub binding : AliasRow
    pub is_registered :
        find_asset_by_canonical_id deps.tenant_id asset.proposed_canonical_id (values repo.assets)
        ≡ some registered
    pub is_bound :
        find_active_alias deps.tenant_id connection_id asset.vendor_id none repo.aliases
        ≡ some binding
    pub same_asset :
        descriptor_changed registered
          (descriptor_for deps plant_id asset (some registered.asset_id))
        ≡ false
    pub same_binding :
        binding_changed binding asset registered.asset_id (status_for deps asset) ≡ false

  pub project-Settled :
      (asset : DiscoveredAsset) (counts : ProjectionCounts) (repo : InMemoryRepository)
      → Settled asset repo
      → project_asset deps plant_id connection_id asset (counts, repo) ≡ (counts, repo)
  unfolding project_asset save_asset save_binding count_asset descriptor_for
  project-Settled asset counts repo s =
      rw (s.is_registered, s.is_bound, project_asset) (rw (s.same_asset, s.same_binding) refl)
