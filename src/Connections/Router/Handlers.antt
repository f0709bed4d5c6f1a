-- ===== src/Connections/Router/Handlers.antt =====
-- packages/connections_api/src/rca_connections_api/connections_router.py: the handlers.
use Prim.Native.String.{◌++◌ as str_append}
use industrial_rca.Prelude.{
  ℕ, suc, String, Bool, false, ◌&&◌, ◌||◌, not, Option, none, some, List, [], ◌∷◌, ◌==◌, str_eq,
  if◌then◌else◌,
}
use industrial_rca.Kg.Slugs.{slug}
use industrial_rca.Mar.Rows.{
  ConnectionRow, AliasRow, TestConnectionResponse, Status, pending, active, error, disabled,
  status_eq,
}
use industrial_rca.Mar.Repository.Connections.{delete_connection, list_connections}
use industrial_rca.Connections.Registry.{probe_for}
use industrial_rca.Connections.StateMachine.{assert_patch_transition, allowed, invalid}
use industrial_rca.Connections.Router.Monad.{
  M, activated, deactivated, already_exists, test_required, illegal_transition, not_pending,
  category_conflict, ◌>>=◌, ◌>>◌, return, raise, unless, look_up, require, upsert,
  upsert_or_conflict, notify,
}
use industrial_rca.Connections.Router.Requests.{
  CreateConnectionRequest, UpdateConnectionRequest, Env,
}

unfoldable pub connection_id_of : CreateConnectionRequest → String
connection_id_of body =
    str_append body.plant_id
      (str_append "." (str_append body.category (str_append "." (slug body.display_name))))

unfoldable pub created_row : CreateConnectionRequest → ConnectionRow
created_row body = record {
  connection_id = connection_id_of body;
  plant_id = body.plant_id;
  category = body.category;
  connector_type = body.connector_type;
  display_name = body.display_name;
  base_url = body.base_url;
  auth_config = body.auth_config;
  status = pending;
  extra_config = body.extra_config;
  last_tested_at = none;
  last_test_result = none;
}

abbrev pub refuse_present : Option ConnectionRow → M (Unit {0})
refuse_present none = return tt
refuse_present (some _) = raise 409 already_exists

unfoldable pub create_connection : CreateConnectionRequest → M ConnectionRow
unfolding look_up upsert created_row
create_connection body = do
  existing ← look_up (connection_id_of body)
  refuse_present existing
  upsert (created_row body)
  return (created_row body)

unfoldable pub list_handler : Option String → Option String → Option Status → M (List ConnectionRow)
list_handler plant_id category status s =
    return (list_connections plant_id category status s.connections) s

abbrev pub given {ℓ} : {A : Type ℓ} → Option A → A → A
given none old = old
given (some new) old = new

-- The status that the PATCH writes, after `assert_patch_transition`; `none` leaves it.
unfoldable pub patched_status : ConnectionRow → Option Status → M (Option Status)
patched_status row none = return none
patched_status row (some s) =
    if not (status_eq s row.status)
    then (elim (assert_patch_transition row.status s) [
      | allowed ↦ return (some s)
      | invalid x ↦ raise 409 (illegal_transition x)
    ])
    else return none

unfoldable pub patched_row : ConnectionRow → UpdateConnectionRequest → Option Status → ConnectionRow
patched_row row body status = record row {
  display_name = given body.display_name row.display_name;
  base_url = given body.base_url row.base_url;
  auth_config = given body.auth_config row.auth_config;
  extra_config = elim body.extra_config [ none ↦ row.extra_config | some x ↦ some x ];
  status = given status row.status;
}

abbrev pub is_disabled : Option Status → Bool
is_disabled none = false
is_disabled (some s) = status_eq s disabled

unfoldable pub update_connection : Env → String → UpdateConnectionRequest → M ConnectionRow
unfolding require patched_status patched_row upsert_or_conflict
update_connection env connection_id body = do
  row ← require connection_id
  status ← patched_status row body.status
  upsert_or_conflict (patched_row row body status)
  notify (env.on_deactivate && is_disabled status) (deactivated (patched_row row body status))
  return (patched_row row body status)

unfoldable pub count_aliases_for_connection : String → List AliasRow → ℕ
count_aliases_for_connection connection_id [] = 0
count_aliases_for_connection connection_id (a ∷ as_left) =
    let rest = count_aliases_for_connection connection_id as_left in
    if str_eq a.connection_id connection_id then suc rest else rest

-- The body of a 200, or the empty answer 204.
unfoldable pub drop_unreferenced : String → ConnectionRow → M (Option ConnectionRow)
unfolding count_aliases_for_connection
drop_unreferenced connection_id row s =
    if count_aliases_for_connection connection_id s.aliases == 0
    then return none (record s { connections = delete_connection connection_id s.connections })
    else return (some row) s

unfoldable pub delete_handler : Env → String → M (Option ConnectionRow)
unfolding require upsert drop_unreferenced
delete_handler env connection_id = do
  row ← require connection_id
  upsert (record row { status = disabled })
  notify env.on_deactivate (deactivated (record row { status = disabled }))
  drop_unreferenced connection_id (record row { status = disabled })

abbrev failed_secret : String → String → TestConnectionResponse
failed_secret secret_ref message = record {
  success = false;
  checks = [];
  upstream_version = none;
  error_summary = some (
      str_append "secret_ref resolution failed for '"
        (str_append secret_ref (str_append "': " message)));
}

-- The probe of the row: the override for its type, or the registry's.
unfoldable pub probe_row : Env → ConnectionRow → TestConnectionResponse
unfolding probe_for
probe_row env row = elim (env.overrides row.connector_type) [
  | some probe ↦ probe row.base_url row.extra_config
  | none ↦ probe_for env.wired row.connector_type row.base_url row.extra_config
]

-- The reference is resolved first, when there is one; a bad one is a failed test.
unfoldable pub test_result : Env → ConnectionRow → TestConnectionResponse
unfolding probe_row
test_result env row = elim row.auth_config.secret_ref [
  | none ↦ probe_row env row
  | some secret_ref ↦
      if str_eq secret_ref "" then probe_row env row else (elim (env.resolve secret_ref) [
        | none ↦ probe_row env row
        | some message ↦ failed_secret secret_ref message
      ])
]

unfoldable pub tested_status : Bool → Status → Status
tested_status success status =
    if success
    then (if status_eq status error then pending else status)
    else if status_eq status pending || status_eq status active
    then error
    else status

unfoldable pub tested_row : ℕ → TestConnectionResponse → ConnectionRow → ConnectionRow
unfolding tested_status
tested_row now result row = record row {
  status = tested_status result.success row.status;
  last_tested_at = some now;
  last_test_result = some result;
}

-- What follows the probe: the row that was read before it is written back with the outcome.
unfoldable pub store_test : ℕ → TestConnectionResponse → ConnectionRow → M TestConnectionResponse
unfolding upsert tested_row
store_test now result row = do upsert (tested_row now result row); return result

unfoldable pub test_connection : Env → ℕ → String → M TestConnectionResponse
unfolding require store_test test_result
test_connection env now connection_id = do
  row ← require connection_id
  store_test now (test_result env row) row

-- `(row.last_test_result or {}).get("success")`.
unfoldable pub passed_test : ConnectionRow → Bool
passed_test row = elim row.last_test_result [ none ↦ false | some result ↦ result.success ]

-- The loop over the active connections of the same plant and category.
abbrev pub refuse_others : String → List ConnectionRow → M (Unit {0})
refuse_others connection_id [] = return tt
refuse_others connection_id (other ∷ others) =
    let rest = refuse_others connection_id others in
    if not (str_eq other.connection_id connection_id)
    then raise 409 (category_conflict other.connection_id)
    else rest

unfoldable pub active_rows : ConnectionRow → M (List ConnectionRow)
active_rows row s =
    return (list_connections (some row.plant_id) (some row.category) (some active) s.connections) s

unfoldable pub activate_connection : Env → String → M ConnectionRow
unfolding require active_rows passed_test upsert_or_conflict
activate_connection env connection_id = do
  row ← require connection_id
  unless (status_eq row.status pending) 409 (not_pending row.status)
  unless (passed_test row) 409 test_required
  others ← active_rows row
  refuse_others connection_id others
  upsert_or_conflict (record row { status = active })
  notify env.on_activate (activated (record row { status = active }))
  return (record row { status = active })
