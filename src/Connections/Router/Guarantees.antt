-- ===== src/Connections/Router/Guarantees.antt =====
-- What the connections API promises over any history of requests.
use industrial_rca.Prelude.{
  String, ◌≡◌, sym, ap, ◌∙◌, ◌⊎◌, inl, inr, Bool, true, some, List, [], ◌∷◌, string_eq, ℕ, subst,
  some_unique,
}
use industrial_rca.Prelude.Dict.{Dict, get, put, get-put_cases, get-remove_cases}
use industrial_rca.Mar.Rows.{ConnectionRow, Status, disabled}
use industrial_rca.Mar.Repository.Connections.Table.{IsTable, put-IsTable, remove-IsTable}
use industrial_rca.Connections.StateMachine.{Move}
use industrial_rca.Connections.Router.Monad.{Api}
use industrial_rca.Connections.Router.Requests.{
  CreateConnectionRequest, UpdateConnectionRequest, Env,
}
use industrial_rca.Connections.Router.Handlers.{
  create_connection, update_connection, delete_handler, test_connection, activate_connection,
}
use industrial_rca.Connections.Router.Effects.{
  Effect, kept, created, moved, closed, deleted, Settled,
}
use industrial_rca.Connections.Router.Invariant.{
  create_connection-Handled, update_connection-Handled, delete_handler-Handled,
  test_connection-Handled, activate_connection-Handled,
}
use industrial_rca.Connections.Router.Requested.{
  Request, create, update, delete, test, activate, is_delete, serve, serve_all,
}

pub Effect-IsTable :
    {b : Bool} {d e : Dict String ConnectionRow} → Effect b d e → IsTable d → IsTable e
Effect-IsTable (kept q) t = rw q t
Effect-IsTable {d = d} (created row n p q) t = rw q (put-IsTable row d (λ a. cc) t)
Effect-IsTable {d = d} (moved old row at m a q) t = rw q (put-IsTable row d a t)
Effect-IsTable {d = d} (closed row b p q) t = rw q (put-IsTable row d (λ a. cc) t)
Effect-IsTable {d = d} (deleted row b p q) t =
    rw q (remove-IsTable row.connection_id _ (put-IsTable row d (λ a. cc) t))

serve-Effect :
    (env : Env) (r : Request) (s : Api)
    → IsTable s.connections
    → Effect (is_delete r) s.connections (serve env r s).connections
unfolding serve
serve-Effect env (create body) s t = (create_connection-Handled body s t).effect
serve-Effect env (update id body) s t = (update_connection-Handled env id body s t).effect
serve-Effect env (delete id) s t = (delete_handler-Handled env id s t).effect
serve-Effect env (test now id) s t = (test_connection-Handled env now id s t).effect
serve-Effect env (activate id) s t = (activate_connection-Handled env id s t).effect

-- From a well-formed registry every history of requests, whatever the probes and secrets answer,
-- leads to one: each row under its own id, and never two active connections for one plant and
-- category.
pub serve_all-IsTable :
    (rs : List (Env × Request)) (s : Api)
    → IsTable s.connections
    → IsTable (serve_all rs s).connections
unfolding serve_all
serve_all-IsTable [] s t = t
serve_all-IsTable ((env, r) ∷ rs) s t =
    serve_all-IsTable rs (serve env r s) (Effect-IsTable (serve-Effect env r s t) t)

-- In a well-formed registry no handler lets `DuplicateActiveConnection` escape, and one that
-- answers an HTTP error has changed nothing and called no listener.
pub handlers_settle :
    (env : Env) (now : ℕ) (id : String) (body : CreateConnectionRequest)
    (patch : UpdateConnectionRequest) (s : Api)
    → IsTable s.connections
    → Settled s (create_connection body s)
      × Settled s (update_connection env id patch s)
      × Settled s (delete_handler env id s)
      × Settled s (test_connection env now id s)
      × Settled s (activate_connection env id s)
handlers_settle env now id body patch s t = (
  (create_connection-Handled body s t).settled,
  (update_connection-Handled env id patch s t).settled,
  (delete_handler-Handled env id s t).settled,
  (test_connection-Handled env now id s t).settled,
  (activate_connection-Handled env id s t).settled,
)

abbrev pub StatusStep : Bool → Status → Status → Type 0
StatusStep b s t = (t ≡ s) ⊎ Move s t ⊎ ((b ≡ true) × (t ≡ disabled))

put_status :
    (b : Bool) (i k : String) (d : Dict String ConnectionRow) (row old new : ConnectionRow)
    → ((x : ConnectionRow) → get i d ≡ some x → StatusStep b x.status row.status)
    → get k d ≡ some old
    → get k (put i row d) ≡ some new
    → StatusStep b old.status new.status
put_status b i k d row old new m before after = elim (get-put_cases i k row d after) [
  | inl (same, v) ↦
      subst (λ z. StatusStep b old.status z.status) v
        (m old (subst (λ z. get z d ≡ some old) (sym same) before))
  | inr (n, same) ↦ inl (ap (λ (z : ConnectionRow). z.status) (some_unique same before))
]

Effect-status :
    (b : Bool) (d e : Dict String ConnectionRow) (k : String) (old new : ConnectionRow)
    → Effect b d e
    → get k d ≡ some old
    → get k e ≡ some new
    → StatusStep b old.status new.status
Effect-status b d e k old new (kept q) before after = inl (
    ap (λ (z : ConnectionRow). z.status)
      (some_unique (subst (λ z. get k z ≡ some new) q after) before))
Effect-status b d e k old new (created row n p q) before after =
    put_status b row.connection_id k d row old new (λ x h. absurd (clash x h)) before
      (rw (← q) after)
  where
    clash : (x : ConnectionRow) → get row.connection_id d ≡ some x → ⊥
    clash x h = cc
Effect-status b d e k old new (moved o row at m a q) before after =
    put_status b row.connection_id k d row old new
      (λ x h. elim m [
        | inl same ↦ inl (same ∙ ap (λ (z : ConnectionRow). z.status) (some_unique at h))
        | inr mv ↦ inr (inl (subst (λ z. Move z.status row.status) (some_unique at h) mv))
      ])
      before (rw (← q) after)
Effect-status b d e k old new (closed row y p q) before after =
    put_status b row.connection_id k d row old new (λ x h. inr (inr (y, p))) before (rw (← q) after)
Effect-status b d e k old new (deleted row y p q) before after =
    put_status b row.connection_id k d row old new (λ x h. inr (inr (y, p))) before
      (get-remove_cases row.connection_id k (put row.connection_id row d) (rw (← q) after)).1

-- In a well-formed registry a request that leaves a connection in the registry has left its status
-- alone or moved it along an arrow of the life cycle; only a DELETE may also disable it from any
-- status.
pub serve_status :
    (env : Env) (r : Request) (s : Api) (k : String) (old new : ConnectionRow)
    → IsTable s.connections
    → get k s.connections ≡ some old
    → get k (serve env r s).connections ≡ some new
    → StatusStep (is_delete r) old.status new.status
serve_status env r s k old new t before after =
    Effect-status _ _ _ k old new (serve-Effect env r s t) before after
