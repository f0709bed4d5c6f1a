-- ===== src/Onboarding/Projection.antt =====
-- packages/onboarding/src/rca_onboarding/activities.py: `_project_to_mar_impl` over the in-memory
-- repository. The clock and the UUIDs that a write draws, `uuid5` and the text of a JSON object are
-- arguments.
pub mod Settled
pub mod Bindings
pub mod Apart
pub mod Idempotent
use industrial_rca.Prelude.{
  ℕ, suc, String, Bool, true, false, ◌&&◌, ◌||◌, not, Option, none, some, List, [], ◌∷◌, leb, ◌==◌,
  str_eq, opt_eq, if◌then◌else◌, string_eq,
}
use industrial_rca.Prelude.Dict.{Dict, get, values}
use industrial_rca.Kg.Slugs.{lower}
use industrial_rca.Mar.Rows.{
  AssetDescriptor, AliasRow, ResolutionStatus, auto_resolved, pending_review, human_validated,
  rejected, superseded, unlisted,
}
use industrial_rca.Mar.Repository.{InMemoryRepository}
use industrial_rca.Mar.Repository.Aliases.{find_active_alias, is_none}
use industrial_rca.Mar.Repository.Assets.{upsert_asset, find_asset_by_canonical_id}
use industrial_rca.Mar.Resolution.Lookups.{write_alias}
use industrial_rca.Onboarding.Rows.{DiscoveredAsset, ProjectionCounts, no_counts}

-- The two readings of the clock and the UUID of one write of an alias.
pub record Draw : Type 0 where
  pub valid_from : ℕ
  pub resolved_at : ℕ
  pub alias_id : String

-- `ActivityDeps`, with what the outside world answers: `draw n` is for the write after `n` writes.
pub record ActivityDeps : Type 0 where
  pub threshold : ℕ
  pub tenant_id : String
  pub uuid5 : String → String
  pub attributes_text : Dict String String → String
  pub draw : ℕ → Draw

-- `_criticality`.
unfoldable pub criticality_letter : String → String
criticality_letter word =
    if str_eq word "high"
    then "A"
    else if str_eq word "medium"
    then "C"
    else if str_eq word "low"
    then "D"
    else "C"

unfoldable pub criticality_of : Dict String String → String
unfolding criticality_letter lower
criticality_of attributes =
    criticality_letter
      (lower (elim (get "Criticality" attributes) [ none ↦ "" | some word ↦ word ]))

unfoldable pub descriptor_for :
    ActivityDeps → String → DiscoveredAsset → Option String → AssetDescriptor
unfolding criticality_of
descriptor_for deps plant_id asset asset_id = record {
  asset_id = elim asset_id [ none ↦ deps.uuid5 asset.proposed_canonical_id | some i ↦ i ];
  canonical_id = asset.proposed_canonical_id;
  tenant_id = deps.tenant_id;
  plant_id = plant_id;
  iso14224_class = elim asset.iso14224_class [
    | none ↦ "unknown.unclassified"
    | some c ↦ if str_eq c "" then "unknown.unclassified" else c
  ];
  iso14224_class_kg = none;
  iso14224_level = 6;
  tag = asset.name;
  service = none;
  criticality = criticality_of asset.attributes;
  manufacturer = get "Manufacturer" asset.attributes;
  model = get "Model" asset.attributes;
  serial_number = get "SerialNumber" asset.attributes;
  commissioned_at = none;
  decommissioned_at = none;
  location_description = none;
  description = get "ServiceDescription" asset.attributes;
}

unfoldable pub descriptor_changed : AssetDescriptor → AssetDescriptor → Bool
descriptor_changed existing proposed =
    not (str_eq existing.canonical_id proposed.canonical_id)
    || (not (str_eq existing.plant_id proposed.plant_id)
        || (not (str_eq existing.iso14224_class proposed.iso14224_class)
            || (not (existing.iso14224_level == proposed.iso14224_level)
                || (not (str_eq existing.tag proposed.tag)
                    || (not (str_eq existing.criticality proposed.criticality)
                        || (not (opt_eq existing.manufacturer proposed.manufacturer)
                            || (not (opt_eq existing.model proposed.model)
                                || (not (opt_eq existing.serial_number proposed.serial_number)
                                    || not
                                        (opt_eq existing.description proposed.description)))))))))

unfoldable pub mapping_source_of : DiscoveredAsset → String
mapping_source_of asset =
    if str_eq asset.iso14224_class_method "none" then "crawl" else asset.iso14224_class_method

unfoldable pub resolution_eq : ResolutionStatus → ResolutionStatus → Bool
resolution_eq auto_resolved auto_resolved = true
resolution_eq pending_review pending_review = true
resolution_eq human_validated human_validated = true
resolution_eq rejected rejected = true
resolution_eq superseded superseded = true
resolution_eq (unlisted s) (unlisted t) = str_eq s t
resolution_eq _ _ = false

unfoldable pub binding_changed : AliasRow → DiscoveredAsset → String → ResolutionStatus → Bool
unfolding mapping_source_of resolution_eq
binding_changed existing asset asset_id resolution_status =
    not (str_eq existing.asset_id asset_id)
    || (not (str_eq existing.mapping_source (mapping_source_of asset))
        || (not (existing.confidence == asset.iso14224_class_confidence)
            || (not (opt_eq existing.vendor_path (some asset.vendor_path))
                || not (resolution_eq existing.resolution_status resolution_status))))

unfoldable pub status_for : ActivityDeps → DiscoveredAsset → ResolutionStatus
status_for deps asset =
    if leb deps.threshold asset.iso14224_class_confidence then auto_resolved else pending_review

unfoldable pub alias_for :
    ActivityDeps → ℕ → DiscoveredAsset → String → String → ResolutionStatus → AliasRow
unfolding mapping_source_of
alias_for deps valid_from asset asset_id connection_id resolution_status = record {
  asset_id = asset_id;
  tenant_id = deps.tenant_id;
  connection_id = connection_id;
  external_id = asset.vendor_id;
  valid_from = valid_from;
  valid_to = none;
  mapping_source = mapping_source_of asset;
  confidence = asset.iso14224_class_confidence;
  is_primary = false;
  resolution_status = resolution_status;
  candidate_alternatives = elim resolution_status [
    | pending_review ↦ some (
        record {
          canonical_id = asset.proposed_canonical_id;
          confidence = asset.iso14224_class_confidence;
          method = asset.iso14224_class_method;
        }
        ∷ [])
    | _ ↦ none
  ];
  resolved_by = some "system";
  vendor_path = some asset.vendor_path;
  vendor_metadata = some (deps.attributes_text asset.attributes);
  confirmed_by = none;
  notes = none;
  alias_id = none;
  validated_by = none;
  validated_at = none;
  resolved_at = none;
}

-- `existing_asset.asset_id`, and whether the registered asset or the binding has drifted.
abbrev pub existing_id : Option AssetDescriptor → Option String
existing_id none = none
existing_id (some a) = some a.asset_id

abbrev pub asset_drifted : Option AssetDescriptor → AssetDescriptor → Bool
asset_drifted none proposed = false
asset_drifted (some existing) proposed = descriptor_changed existing proposed

abbrev pub binding_drifted : Option AliasRow → DiscoveredAsset → String → ResolutionStatus → Bool
binding_drifted none asset asset_id status = false
binding_drifted (some existing) asset asset_id status =
    binding_changed existing asset asset_id status

unfoldable pub save_asset : Bool → AssetDescriptor → InMemoryRepository → InMemoryRepository
save_asset needed proposed repo = if needed then upsert_asset proposed repo else repo

unfoldable pub save_binding :
    ActivityDeps
    → String
    → DiscoveredAsset
    → String
    → Bool
    → InMemoryRepository
    → InMemoryRepository
unfolding alias_for status_for
save_binding deps connection_id asset asset_id needed repo =
    let draw : Draw = deps.draw repo.write_count in
    if needed
    then write_alias draw.resolved_at draw.alias_id
        (alias_for deps draw.valid_from asset asset_id connection_id (status_for deps asset)) repo
    else repo

-- The counts of one asset: it is new, or updated, or neither, and its binding may await review.
unfoldable pub count_asset : Bool → Bool → Bool → Bool → Bool → ProjectionCounts → ProjectionCounts
count_asset asset_new asset_changed binding_new binding_changed pending counts = record counts {
  assets_new = if asset_new && binding_new then suc counts.assets_new else counts.assets_new;
  assets_updated =
      if asset_new && binding_new
      then counts.assets_updated
      else if asset_changed || (binding_new || binding_changed)
      then suc counts.assets_updated
      else counts.assets_updated;
  bindings_pending_review =
      if (binding_new || binding_changed) && pending
      then suc counts.bindings_pending_review
      else counts.bindings_pending_review;
}

unfoldable pub project_asset :
    ActivityDeps
    → String
    → String
    → DiscoveredAsset
    → ProjectionCounts × InMemoryRepository
    → ProjectionCounts × InMemoryRepository
unfolding descriptor_for save_asset save_binding count_asset status_for
project_asset deps plant_id connection_id asset (counts, repo) =
    let binding : Option AliasRow =
      find_active_alias deps.tenant_id connection_id asset.vendor_id none repo.aliases in
    let existing : Option AssetDescriptor =
      find_asset_by_canonical_id deps.tenant_id asset.proposed_canonical_id (values repo.assets) in
    let proposed : AssetDescriptor = descriptor_for deps plant_id asset (existing_id existing) in
    let status : ResolutionStatus = status_for deps asset in
    let asset_changed : Bool = asset_drifted existing proposed in
    let changed : Bool = binding_drifted binding asset proposed.asset_id status in
    (
      count_asset (is_none existing) asset_changed (is_none binding) changed
          (resolution_eq status pending_review) counts,
      save_binding deps connection_id asset proposed.asset_id (is_none binding || changed)
          (save_asset (is_none existing || asset_changed) proposed repo),
    )

-- The loop, one asset after another.
unfoldable pub project_assets :
    ActivityDeps
    → String
    → String
    → List DiscoveredAsset
    → ProjectionCounts × InMemoryRepository
    → ProjectionCounts × InMemoryRepository
project_assets deps plant_id connection_id [] acc = acc
project_assets deps plant_id connection_id (asset ∷ assets) acc =
    project_assets deps plant_id connection_id assets
      (project_asset deps plant_id connection_id asset acc)

unfoldable pub project_to_mar :
    ActivityDeps
    → String
    → String
    → List DiscoveredAsset
    → InMemoryRepository
    → ProjectionCounts × InMemoryRepository
unfolding project_assets
project_to_mar deps plant_id connection_id assets repo =
    project_assets deps plant_id connection_id assets (no_counts, repo)
