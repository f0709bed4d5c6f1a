-- ===== src/Mar/Repository/Assets.antt =====
-- packages/mar/src/rca_mar/repository.py: the asset table of `InMemoryRepository`, and the status
-- that it keeps beside a descriptor. The time that the code draws is an argument.
use industrial_rca.Prelude.{
  ℕ, suc, String, ◌&&◌, Option, none, some, List, [], ◌∷◌, str_eq, if◌then◌else◌, string_eq,
  pair_eq,
}
use industrial_rca.Prelude.Dict.{get, put}
use industrial_rca.Mar.Rows.{AssetDescriptor}
use industrial_rca.Mar.Repository.{InMemoryRepository}

unfoldable pub upsert_asset : AssetDescriptor → InMemoryRepository → InMemoryRepository
upsert_asset asset repo = record repo {
  write_count = suc repo.write_count;
  assets = put (asset.tenant_id, asset.asset_id) asset repo.assets;
}

unfoldable pub find_asset_by_canonical_id :
    String → String → List AssetDescriptor → Option AssetDescriptor
find_asset_by_canonical_id tenant canonical_id [] = none
find_asset_by_canonical_id tenant canonical_id (a ∷ assets) =
    if str_eq a.tenant_id tenant && str_eq a.canonical_id canonical_id
    then some a
    else find_asset_by_canonical_id tenant canonical_id assets

unfoldable pub decommission_asset : ℕ → String → String → InMemoryRepository → InMemoryRepository
decommission_asset now tenant asset_id repo = elim (get (tenant, asset_id) repo.assets) [
  | none ↦ repo
  | some asset ↦ record repo {
    write_count = suc repo.write_count;
    asset_status = put (tenant, asset_id) "decommissioned" repo.asset_status;
    assets = put (tenant, asset_id) (record asset { decommissioned_at = some now }) repo.assets;
  }
]

unfoldable pub status_of : String → String → InMemoryRepository → String
status_of tenant asset_id repo = elim (get (tenant, asset_id) repo.asset_status) [
  | none ↦ "active"
  | some status ↦ status
]
