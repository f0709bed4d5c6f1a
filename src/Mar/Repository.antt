-- ===== src/Mar/Repository.antt =====
-- packages/mar/src/rca_mar/repository.py, `InMemoryRepository`.
pub mod Connections
pub mod Aliases
pub mod Assets
pub mod Registry
pub mod Pending
use industrial_rca.Prelude.{ℕ, String, List}
use industrial_rca.Prelude.Dict.{Dict}
use industrial_rca.Mar.Rows.{AliasRow, AssetDescriptor, ConnectionRow, Candidate}

-- `candidate_payload`, by its `reason`.
pub data Payload : Type 0 where
  candidate_asset_missing : String → Payload
  unknown_connection : String → Candidate → Payload
  ambiguous_crosswalk : List String → Payload
  no_match : Payload

pub record Unresolved : Type 0 where
  pub occurrence_count : ℕ
  pub candidate_payload : Payload

-- All fields but the cache of document embeddings. Keys are (tenant, asset) and (tenant,
-- connection, external id).
pub record InMemoryRepository : Type 0 where
  pub assets : Dict (String × String) AssetDescriptor
  pub aliases : List AliasRow
  pub unresolved : Dict (String × (String × String)) Unresolved
  pub connections : Dict String ConnectionRow
  pub asset_status : Dict (String × String) String
  pub write_count : ℕ
