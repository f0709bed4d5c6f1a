-- ===== src/Sdk/Routing/Tests.antt =====
-- Runs of the router over one active historian.
use industrial_rca.Prelude.{◌≡◌, refl, true, none, some, [], ◌∷◌, string_eq, keep_if, arith, eq_iff}
use industrial_rca.Prelude.Dict.{get, put}
use industrial_rca.Mar.Rows.{ConnectionRow, pending, active, status_eq}
use industrial_rca.Mar.Repository.Connections.{
  upsert_connection, first_rival, rivals, list_connections,
}
use industrial_rca.Mar.Repository.Connections.Table.{IsTable}
use industrial_rca.Connections.Router.Monad.{Api}
use industrial_rca.Connections.Router.Requests.{Env}
use industrial_rca.Connections.Router.Handlers.{activate_connection}
use industrial_rca.Sdk.Routing.{ConnectionInfo, routed, static_active, info_of, provider, by_id}
use industrial_rca.Sdk.Routing.Scope.{static_active-InScope, InScope}
use industrial_rca.Sdk.Routing.Registry.{activated-routed}

abbrev historian : ConnectionRow
historian = record {
  connection_id = "p1.historian.pi";
  plant_id = "p1";
  category = "historian";
  connector_type = "pi_historian";
  display_name = "PI";
  base_url = "http://pi";
  auth_config = record { type_name = "none"; secret_ref = none };
  status = pending;
  extra_config = none;
  last_tested_at = some 5;
  last_test_result =
      some (record { success = true; checks = []; upstream_version = none; error_summary = none });
}

abbrev running : ConnectionRow
running = record historian { status = active }

abbrev info : ConnectionInfo
info = record {
  connection_id = "p1.historian.pi";
  plant_id = "p1";
  category = "historian";
  connector_type = "pi_historian";
  base_url = "http://pi";
  extra_config = "{}";
}

static_active-InScope_example : InScope "p1" "historian" (some "p1.historian.pi") info
unfolding static_active by_id get put
static_active-InScope_example =
    static_active-InScope (info ∷ []) "p1" "historian" (some "p1.historian.pi") info refl

one-IsTable :
    (r : ConnectionRow)
    → r.connection_id ≡ "p1.historian.pi"
    → IsTable (("p1.historian.pi", r) ∷ [])
unfolding get
one-IsTable r q = record {
  unique = (refl, tt);
  keyed = λ k s e. ground (arith, eq_iff "p1.historian.pi" k);
  one_active =
      λ j k x y e f a b p c. ground (arith, eq_iff "p1.historian.pi" k, eq_iff "p1.historian.pi" j);
}

abbrev env : Env
env = record {
  resolve = λ _. none;
  overrides = λ _. none;
  wired = λ _. none;
  on_activate = true;
  on_deactivate = true;
}

abbrev api : Api
api = record { connections = ("p1.historian.pi", historian) ∷ []; aliases = []; notices = [] }

activated-routed_example :
    static_active
      (provider []
        (some (activate_connection env "p1.historian.pi" api).1.connections)
        "p1"
        "historian")
      "p1"
      "historian"
      none
    ≡ routed (info_of running)
unfolding activate_connection get put upsert_connection status_eq first_rival rivals
    list_connections keep_if
activated-routed_example =
    activated-routed env [] "p1.historian.pi" api (activate_connection env "p1.historian.pi" api).1
      running (one-IsTable historian refl) refl
