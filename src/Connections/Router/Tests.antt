-- ===== src/Connections/Router/Tests.antt =====
-- Runs of the connections API on two historians of one plant, and the theorems at them.
use industrial_rca.Prelude.{
  String, ◌≡◌, refl, true, false, none, some, List, [], ◌∷◌, arith, string_eq, keep_if, eq_iff,
  subst,
}
use industrial_rca.Prelude.Dict.{get, put}
use industrial_rca.Kg.Slugs.{slug}
use industrial_rca.Mar.Rows.{
  ConnectionRow, Status, TestConnectionResponse, pending, active, disabled, status_eq,
}
use industrial_rca.Mar.Repository.Connections.{
  upsert_connection, first_rival, rivals, list_connections,
}
use industrial_rca.Mar.Repository.Connections.Table.{IsTable}
use industrial_rca.Connections.StateMachine.{assert_patch_transition}
use industrial_rca.Connections.Router.Monad.{Api, ok}
use industrial_rca.Connections.Router.Requests.{CreateConnectionRequest, Env}
use industrial_rca.Connections.Router.Handlers.{
  create_connection, connection_id_of, created_row, update_connection, delete_handler,
  test_connection, activate_connection, passed_test, store_test,
}
use industrial_rca.Connections.Router.Effects.{Settled}
use industrial_rca.Connections.Router.Requested.{
  Request, create, update, test, activate, serve, serve_all,
}
use industrial_rca.Connections.Router.Guarantees.{
  serve_all-IsTable, handlers_settle, serve_status, StatusStep,
}
use industrial_rca.Connections.Router.Gate.{FreeSlot, activate_gate, activate_succeeds}
use industrial_rca.Connections.Router.Gaps.{only_status, store_test_resurrects}

abbrev passing : TestConnectionResponse
passing = record { success = true; checks = []; upstream_version = none; error_summary = none }

abbrev env : Env
env = record {
  resolve = λ _. none;
  overrides = λ _. none;
  wired = λ _. some (λ _ _. passing);
  on_activate = true;
  on_deactivate = true;
}

abbrev body : String → CreateConnectionRequest
body name = record {
  plant_id = "p1";
  category = "historian";
  connector_type = "pi_historian";
  display_name = name;
  base_url = "http://pi";
  auth_config = record { type_name = "none"; secret_ref = none };
  extra_config = none;
}

abbrev main_id : String
main_id = "p1.historian.pi-main"

abbrev spare_id : String
spare_id = "p1.historian.pi-spare"

abbrev row_of : String → String → Status → ConnectionRow
row_of id name status = record {
  connection_id = id;
  plant_id = "p1";
  category = "historian";
  connector_type = "pi_historian";
  display_name = name;
  base_url = "http://pi";
  auth_config = record { type_name = "none"; secret_ref = none };
  status = status;
  extra_config = none;
  last_tested_at = some 5;
  last_test_result = some passing;
}

abbrev no_api : Api
no_api = record { connections = []; aliases = []; notices = [] }

-- Both are created and tested.
abbrev tested_both : List (Env × Request)
tested_both =
    (env, create (body "PI Main"))
    ∷ (env, create (body "PI Spare"))
    ∷ (env, test 5 main_id)
    ∷ (env, test 5 spare_id)
    ∷ []

abbrev api_tested : Api
api_tested = record {
  connections =
      (main_id, row_of main_id "PI Main" pending)
      ∷ (spare_id, row_of spare_id "PI Spare" pending)
      ∷ [];
  aliases = [];
  notices = [];
}

abbrev api_active : Api
api_active = record {
  connections =
      (main_id, row_of main_id "PI Main" active)
      ∷ (spare_id, row_of spare_id "PI Spare" pending)
      ∷ [];
  aliases = [];
  notices = [];
}

tested_run : (serve_all tested_both no_api).connections ≡ api_tested.connections
unfolding serve_all serve create_connection connection_id_of created_row test_connection slug get
    put upsert_connection status_eq
tested_run = refl

activated_run : (serve env (activate main_id) api_tested).connections ≡ api_active.connections
unfolding serve activate_connection get put upsert_connection status_eq first_rival rivals
    list_connections keep_if
activated_run = refl

no_api-IsTable : IsTable no_api.connections
unfolding get
no_api-IsTable = record { unique = tt; keyed = λ k r e. cc; one_active = λ j k r s e f x y p c. cc }

api_tested-IsTable : IsTable api_tested.connections
api_tested-IsTable = subst IsTable tested_run (serve_all-IsTable tested_both no_api no_api-IsTable)

api_active-IsTable : IsTable api_active.connections
unfolding serve_all
api_active-IsTable =
    subst IsTable activated_run
      (serve_all-IsTable ((env, activate main_id) ∷ []) api_tested api_tested-IsTable)

serve_all-IsTable_example : IsTable (serve_all tested_both no_api).connections
serve_all-IsTable_example = serve_all-IsTable tested_both no_api no_api-IsTable

handlers_settle_example :
    Settled api_active (create_connection (body "PI Main") api_active)
    × Settled api_active (update_connection env spare_id (only_status active) api_active)
    × Settled api_active (delete_handler env spare_id api_active)
    × Settled api_active (test_connection env 9 spare_id api_active)
    × Settled api_active (activate_connection env spare_id api_active)
handlers_settle_example =
    handlers_settle env 9 spare_id (body "PI Main") (only_status active) api_active
      api_active-IsTable

serve_status_example : StatusStep false pending active
unfolding serve activate_connection get put upsert_connection status_eq first_rival rivals
    list_connections keep_if
serve_status_example =
    serve_status env (activate main_id) api_tested main_id (row_of main_id "PI Main" pending)
      (row_of main_id "PI Main" active) api_tested-IsTable refl refl

activate_gate_example :
    (old : ConnectionRow) × (get main_id api_tested.connections ≡ some old)
    × (old.status ≡ pending)
    × (passed_test old ≡ true)
    × FreeSlot main_id old api_tested.connections
    × (row_of main_id "PI Main" active ≡ record old { status = active })
    × ((activate_connection env main_id api_tested).1.connections
        ≡ put main_id (row_of main_id "PI Main" active) api_tested.connections)
unfolding activate_connection get put upsert_connection status_eq first_rival rivals
    list_connections keep_if
activate_gate_example =
    activate_gate env main_id api_tested (activate_connection env main_id api_tested).1
      (row_of main_id "PI Main" active) api_tested-IsTable refl

nobody_active : FreeSlot main_id (row_of main_id "PI Main" pending) api_tested.connections
unfolding get
nobody_active k r e a p c = ground (arith, eq_iff main_id k, eq_iff spare_id k)

activate_succeeds_example :
    (u : Api) × (activate_connection env main_id api_tested
      ≡ (ok (row_of main_id "PI Main" active), u))
    × (u.connections ≡ put main_id (row_of main_id "PI Main" active) api_tested.connections)
unfolding get passed_test
activate_succeeds_example =
    activate_succeeds env main_id api_tested (row_of main_id "PI Main" pending) api_tested-IsTable
      refl refl refl nobody_active

-- The main connection is disabled while a test of it, begun when it was active, still runs.
abbrev api_disabled : Api
api_disabled = (serve env (update main_id (only_status disabled)) api_active)

disabled_run :
    api_disabled.connections
    ≡ (main_id, row_of main_id "PI Main" disabled)
      ∷ (spare_id, row_of spare_id "PI Spare" pending)
      ∷ []
unfolding serve update_connection get put upsert_connection status_eq assert_patch_transition
disabled_run = refl

nobody_else : FreeSlot main_id (row_of main_id "PI Main" active) api_disabled.connections
nobody_else k r e a p c = others k r (subst (λ d. get k d ≡ some r) disabled_run e) a
  where
    others :
        (k : String) (r : ConnectionRow)
        → get k (
            (main_id, row_of main_id "PI Main" disabled)
            ∷ (spare_id, row_of spare_id "PI Spare" pending)
            ∷ [])
          ≡ some r
        → r.status ≡ active
        → k ≡ main_id
    others k r e a = unfold get in ground (arith, eq_iff main_id k, eq_iff spare_id k)

store_test_resurrects_example :
    (row : ConnectionRow) × (get main_id
        (store_test 9 passing (row_of main_id "PI Main" active) api_disabled).1.connections
      ≡ some row)
    × (row.status ≡ active)
unfolding serve_all
store_test_resurrects_example =
    store_test_resurrects 9 passing main_id api_disabled (row_of main_id "PI Main" active)
      (row_of main_id "PI Main" disabled)
      (serve_all-IsTable ((env, update main_id (only_status disabled)) ∷ []) api_active
        api_active-IsTable)
      refl refl refl (rw disabled_run (unfold get in refl)) refl nobody_else
