-- ===== src/Mar/Resolution/Lookups.antt =====
-- packages/mar/src/rca_mar/repository.py: what `resolve_asset` asks of the repository.

use industrial_rca.Prelude.{
  mem_text, ℕ, suc, String, ◌&&◌, Option, none, some, List, [], ◌∷◌, keep_if, str_eq, if◌then◌else◌,
  string_eq, pair_eq,
}
use industrial_rca.Prelude.Dict.{get, put}
use industrial_rca.Mar.Rows.{AliasRow, AssetDescriptor}
use industrial_rca.Mar.Repository.{InMemoryRepository, Unresolved, Payload}
use industrial_rca.Mar.Repository.Aliases.{is_none, upsert_alias}

unfoldable pub find_crosswalk_candidates : String → String → List AliasRow → List AliasRow
find_crosswalk_candidates tenant external_id =
    keep_if
      (λ a. str_eq a.tenant_id tenant && (str_eq a.external_id external_id && is_none a.valid_to))

unfoldable pub asset_with_tag : String → String → List AssetDescriptor → Option AssetDescriptor
asset_with_tag tenant tag [] = none
asset_with_tag tenant tag (a ∷ assets) =
    if str_eq a.tenant_id tenant && str_eq a.tag tag
    then some a
    else asset_with_tag tenant tag assets

unfoldable pub get_asset : String → String → InMemoryRepository → Option AssetDescriptor
get_asset tenant asset_id repo = get (tenant, asset_id) repo.assets

-- A repeat counts up and keeps the first payload.
unfoldable pub upsert_unresolved :
    String → String → String → Payload → InMemoryRepository → InMemoryRepository
upsert_unresolved tenant source external_id payload repo =
    let key : String × (String × String) = (tenant, (source, external_id)) in
    let row : Unresolved = elim (get key repo.unresolved) [
      | none ↦ record { occurrence_count = 1; candidate_payload = payload }
      | some old ↦ record old { occurrence_count = suc old.occurrence_count }
    ] in
    record repo { unresolved = put key row repo.unresolved }

unfoldable pub write_alias : ℕ → String → AliasRow → InMemoryRepository → InMemoryRepository
unfolding upsert_alias
write_alias now fresh alias repo = record repo {
  write_count = suc repo.write_count;
  aliases = upsert_alias now fresh alias repo.aliases;
}

-- `{c.asset_id for c in candidates}`.
unfoldable pub distinct : List AliasRow → List String
unfolding mem_text
distinct [] = []
distinct (a ∷ rows) =
    let rest = distinct rows in if mem_text a.asset_id rest then rest else a.asset_id ∷ rest
