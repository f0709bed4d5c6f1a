-- ===== src/Connections/Router/Requests.antt =====
-- packages/connections_api/src/rca_connections_api/schemas.py: the request bodies that the handlers
-- take, after validation.
use industrial_rca.Prelude.{String, Option, Bool}
use industrial_rca.Mar.Rows.{AuthConfig, Status}
use industrial_rca.Connections.Registry.{Probe}

pub record CreateConnectionRequest : Type 0 where
  pub plant_id : String
  pub category : String
  pub connector_type : String
  pub display_name : String
  pub base_url : String
  pub auth_config : AuthConfig
  pub extra_config : Option String

pub record UpdateConnectionRequest : Type 0 where
  pub display_name : Option String
  pub base_url : Option String
  pub auth_config : Option AuthConfig
  pub extra_config : Option String
  pub status : Option Status

-- What `build_router` is given. `resolve` answers the text of the exception that a bad reference
-- raises; `overrides` is the `probes=` map and `wired` the connectors' own probes.
pub record Env : Type 0 where
  pub resolve : String → Option String
  pub overrides : String → Option Probe
  pub wired : String → Option Probe
  pub on_activate : Bool
  pub on_deactivate : Bool
