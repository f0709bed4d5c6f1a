-- ===== src/Connections/Router/Requested.antt =====
-- packages/connections_api/src/rca_connections_api/connections_router.py: the API as a server runs
-- it, one request after another.
use industrial_rca.Prelude.{ℕ, String, Bool, true, false, List, [], ◌∷◌}
use industrial_rca.Connections.Router.Monad.{Api}
use industrial_rca.Connections.Router.Requests.{
  CreateConnectionRequest, UpdateConnectionRequest, Env,
}
use industrial_rca.Connections.Router.Handlers.{
  create_connection, update_connection, delete_handler, test_connection, activate_connection,
}

-- The requests that change the registry, with the path's id.
pub data Request : Type 0 where
  create : CreateConnectionRequest → Request
  update : String → UpdateConnectionRequest → Request
  delete : String → Request
  test : ℕ → String → Request
  activate : String → Request

abbrev pub is_delete : Request → Bool
is_delete (delete _) = true
is_delete (create _) = false
is_delete (update _ _) = false
is_delete (test _ _) = false
is_delete (activate _) = false

-- The state that a request leaves.
unfoldable pub serve : Env → Request → Api → Api
serve env (create body) s = (create_connection body s).1
serve env (update id body) s = (update_connection env id body s).1
serve env (delete id) s = (delete_handler env id s).1
serve env (test now id) s = (test_connection env now id s).1
serve env (activate id) s = (activate_connection env id s).1

-- A history: what the outside world answers may differ from request to request.
unfoldable pub serve_all : List (Env × Request) → Api → Api
serve_all [] s = s
serve_all ((env, r) ∷ rs) s = serve_all rs (serve env r s)
