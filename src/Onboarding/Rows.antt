-- ===== src/Onboarding/Rows.antt =====
-- packages/onboarding/src/rca_onboarding/models.py, and the crawl's models of
-- packages/connectors/asset_hierarchy/src/rca_connector_asset_hierarchy/models.py. A confidence is
-- counted in ten-thousandths.
use industrial_rca.Prelude.{ℕ, ◌+◌, String, Bool, Option, List}
use industrial_rca.Prelude.Dict.{Dict}

pub record DiscoveredAsset : Type 0 where
  pub vendor_id : String
  pub vendor_path : String
  pub plant_id : String
  pub unit_slug : String
  pub name : String
  pub proposed_canonical_id : String
  pub iso14224_class : Option String
  pub iso14224_class_confidence : ℕ
  pub iso14224_class_method : String
  pub attributes : Dict String String
  pub parent_unit_vendor_id : String
  pub parent_area_vendor_id : String
  pub site_vendor_id : String

pub data Kind : Type 0 where
  site area unit : Kind

pub record DiscoveredHierarchyNode : Type 0 where
  pub vendor_id : String
  pub vendor_path : String
  pub kind : Kind
  pub name : String
  pub plant_id : String
  pub parent_vendor_id : Option String

pub record CrawlResult : Type 0 where
  pub assets : List DiscoveredAsset
  pub hierarchy_nodes : List DiscoveredHierarchyNode

pub record ProjectionCounts : Type 0 where
  pub assets_new : ℕ
  pub assets_updated : ℕ
  pub assets_decommissioned : ℕ
  pub bindings_pending_review : ℕ
  pub hierarchy_nodes_upserted : ℕ

abbrev pub no_counts : ProjectionCounts
no_counts = record {
  assets_new = 0;
  assets_updated = 0;
  assets_decommissioned = 0;
  bindings_pending_review = 0;
  hierarchy_nodes_upserted = 0;
}

unfoldable pub merged_with : ProjectionCounts → ProjectionCounts → ProjectionCounts
merged_with a b = record {
  assets_new = a.assets_new + b.assets_new;
  assets_updated = a.assets_updated + b.assets_updated;
  assets_decommissioned = a.assets_decommissioned + b.assets_decommissioned;
  bindings_pending_review = a.bindings_pending_review + b.bindings_pending_review;
  hierarchy_nodes_upserted = a.hierarchy_nodes_upserted + b.hierarchy_nodes_upserted;
}

pub record HealthOutcome : Type 0 where
  pub connection_id : String
  pub category : String
  pub ok : Bool
  pub error : Option String
