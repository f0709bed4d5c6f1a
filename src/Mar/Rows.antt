-- ===== src/Mar/Rows.antt =====
-- packages/mar/src/rca_mar/repository.py, the rows: `ConnectionRow` with the status words of the
-- connections API, and the test result that a connection keeps
-- (packages/connector_sdk/src/rca_connector_sdk/health.py). A JSON object that the code only passes
-- on is kept as its text; times are numbers.
use industrial_rca.Prelude.{
  ℕ, String, Bool, true, false, Option, List, str_eq, ◌≡◌, refl, ap, eq_iff, eq_refl, arith,
}

-- The four words of `STATUSES`; a row is a `str`, so any other word may stand there too.
pub data Status : Type 0 where
  pending active error disabled : Status
  other : String → Status

unfoldable pub status_eq : Status → Status → Bool
status_eq pending pending = true
status_eq active active = true
status_eq error error = true
status_eq disabled disabled = true
status_eq (other s) (other t) = str_eq s t
status_eq _ _ = false

pub status_eq→≡ : (s t : Status) → status_eq s t ≡ true → s ≡ t
unfolding status_eq
status_eq→≡ pending t h = ground arith
status_eq→≡ active t h = ground arith
status_eq→≡ error t h = ground arith
status_eq→≡ disabled t h = ground arith
status_eq→≡ (other s) (other t) h = ap other ((eq_iff s t).0 h)
status_eq→≡ (other s) pending h = cc
status_eq→≡ (other s) active h = cc
status_eq→≡ (other s) error h = cc
status_eq→≡ (other s) disabled h = cc

pub status_eq_refl : (s : Status) → status_eq s s ≡ true
unfolding status_eq
status_eq_refl (other s) = eq_refl s
status_eq_refl pending = refl
status_eq_refl active = refl
status_eq_refl error = refl
status_eq_refl disabled = refl

-- `CheckResult.status`.
pub data CheckStatus : Type 0 where
  pass fail skip : CheckStatus

pub record CheckResult : Type 0 where
  pub name : String
  pub status : CheckStatus
  pub latency_ms : ℕ
  pub message : Option String

pub record TestConnectionResponse : Type 0 where
  pub success : Bool
  pub checks : List CheckResult
  pub upstream_version : Option String
  pub error_summary : Option String

pub record AuthConfig : Type 0 where
  pub type_name : String
  pub secret_ref : Option String

pub record ConnectionRow : Type 0 where
  pub connection_id : String
  pub plant_id : String
  pub category : String
  pub connector_type : String
  pub display_name : String
  pub base_url : String
  pub auth_config : AuthConfig
  pub status : Status
  pub extra_config : Option String
  pub last_tested_at : Option ℕ
  pub last_test_result : Option TestConnectionResponse

-- `AssetDescriptor` of packages/contracts/src/rca_contracts/asset.py. A UUID is its text.
pub record AssetDescriptor : Type 0 where
  pub asset_id : String
  pub canonical_id : String
  pub tenant_id : String
  pub plant_id : String
  pub iso14224_class : String
  pub iso14224_class_kg : Option String
  pub iso14224_level : ℕ
  pub tag : String
  pub service : Option String
  pub criticality : String
  pub manufacturer : Option String
  pub model : Option String
  pub serial_number : Option String
  pub commissioned_at : Option ℕ
  pub decommissioned_at : Option ℕ
  pub location_description : Option String
  pub description : Option String

-- `resolution_status`: the words that the code writes, or any other.
pub data ResolutionStatus : Type 0 where
  auto_resolved pending_review human_validated rejected superseded : ResolutionStatus
  unlisted : String → ResolutionStatus

-- One entry of `candidate_alternatives`. A confidence is counted in ten-thousandths: the code
-- compares confidences and stores them, and never calculates with them.
pub record Candidate : Type 0 where
  pub canonical_id : String
  pub confidence : ℕ
  pub method : String

pub record AliasRow : Type 0 where
  pub asset_id : String
  pub tenant_id : String
  pub connection_id : String
  pub external_id : String
  pub valid_from : ℕ
  pub valid_to : Option ℕ
  pub mapping_source : String
  pub confidence : ℕ
  pub is_primary : Bool
  pub resolution_status : ResolutionStatus
  pub candidate_alternatives : Option (List Candidate)
  pub resolved_by : Option String
  pub vendor_path : Option String
  pub vendor_metadata : Option String
  pub confirmed_by : Option String
  pub notes : Option String
  pub alias_id : Option String
  pub validated_by : Option String
  pub validated_at : Option ℕ
  pub resolved_at : Option ℕ
