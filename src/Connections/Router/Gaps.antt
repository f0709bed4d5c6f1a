-- ===== src/Connections/Router/Gaps.antt =====
-- Two ways in which the connections router lets a connection be active without a test of what it
-- now is: the recorded test outlives a disable and a re-enable, and a test that runs while the row
-- changes writes the old row back.
use industrial_rca.Prelude.{
  ℕ, String, ◌≡◌, refl, sym, ap, ◌∙◌, inl, inr, true, false, ◌&&◌, none, some, beq_cases, string_eq,
  subst,
}
use industrial_rca.Prelude.Dict.{get, put, get-put_self, get-put_ne}
use industrial_rca.Mar.Rows.{
  ConnectionRow, Status, TestConnectionResponse, pending, active, disabled, status_eq,
}
use industrial_rca.Mar.Repository.Connections.{get_connection}
use industrial_rca.Mar.Repository.Connections.Table.{IsTable}
use industrial_rca.Connections.StateMachine.{OperatorMove, assert_patch_transition_iff}
use industrial_rca.Connections.Router.Monad.{
  Api, Outcome, ok, then_do, require, look_up, deactivated,
}
use industrial_rca.Connections.Router.Requests.{UpdateConnectionRequest, Env}
use industrial_rca.Connections.Router.Handlers.{
  update_connection, patched_status, patched_row, is_disabled, activate_connection, passed_test,
  store_test, tested_row,
}
use industrial_rca.Connections.Router.Effects.{upsert_then, upsert_or_conflict_then, notify_then}
use industrial_rca.Connections.Router.Invariant.{same_place-IsAdmitted, update_connection-Handled}
use industrial_rca.Connections.Router.Guarantees.{Effect-IsTable}
use industrial_rca.Connections.Router.Gate.{FreeSlot, activate_succeeds}

-- A PATCH body with a status alone.
abbrev pub only_status : Status → UpdateConnectionRequest
only_status status = record {
  display_name = none;
  base_url = none;
  auth_config = none;
  extra_config = none;
  status = some status;
}

patched_status_moves :
    (row : ConnectionRow) (status : Status) (s : Api)
    → OperatorMove row.status status
    → patched_status row (some status) s ≡ (ok (some status), s)
unfolding patched_status
patched_status_moves row status s m =
    rw (differs m, (assert_patch_transition_iff row.status status).1 m)
  where
    differs : {x y : Status} → OperatorMove x y → status_eq y x ≡ false
    differs OperatorMove.deactivate = unfold status_eq in refl
    differs OperatorMove.reenable = unfold status_eq in refl

patch_status :
    (env : Env) (id : String) (status : Status) (s : Api) (row : ConnectionRow)
    → IsTable s.connections
    → get id s.connections ≡ some row
    → OperatorMove row.status status
    → (u : Api) × (update_connection env id (only_status status) s
        ≡ (ok (record row { status = status }), u))
      × (u.connections ≡ put id (record row { status = status }) s.connections)
unfolding update_connection require look_up get_connection patched_row
patch_status env id status s row t e m =
    rw (e, update_connection)
      (rw (patched, then_do)
        (upsert_or_conflict_then row' _ s Ends t
          (same_place-IsAdmitted s.connections row row' t at refl refl (no_active m))
          (λ u o.
            notify_then (env.on_deactivate && is_disabled (some status)) (deactivated row') _ u Ends
              (λ w n. (w, refl, n ∙ o ∙ ap (λ i. put i row' s.connections) (t.keyed id row e))))))
  where
    row' : ConnectionRow
    row' = record row { status = status }

    Ends : Outcome ConnectionRow × Api → Type 0
    Ends r = (u : Api) × (r ≡ (ok row', u)) × (u.connections ≡ put id row' s.connections)

    at : get row.connection_id s.connections ≡ some row
    at = subst (λ i. get i s.connections ≡ some row) (sym (t.keyed id row e)) e

    no_active : {x y : Status} → OperatorMove x y → y ≡ active → x ≡ active
    no_active OperatorMove.deactivate q = refl
    no_active OperatorMove.reenable q = cc

    patched : patched_status row (some status) s ≡ (ok (some status), s)
    patched = patched_status_moves row status s m

update-IsTable :
    (env : Env) (id : String) (body : UpdateConnectionRequest) (s : Api)
    → IsTable s.connections
    → IsTable (update_connection env id body s).1.connections
update-IsTable env id body s t = Effect-IsTable (update_connection-Handled env id body s t).effect t

-- In a well-formed registry an active connection whose last recorded test had succeeded can be
-- disabled, re-enabled and activated again with no test in between: the disable and the re-enable
-- keep the old result.
pub reenabled_without_test :
    (env : Env) (id : String) (s : Api) (row : ConnectionRow)
    → IsTable s.connections
    → get id s.connections ≡ some row
    → row.status ≡ active
    → passed_test row ≡ true
    → let s1 = (update_connection env id (only_status disabled) s).1 in
      let s2 = (update_connection env id (only_status pending) s1).1 in
      (activate_connection env id s2).0 ≡ ok row
reenabled_without_test env id s row t e a z =
    let row1 : ConnectionRow = record row { status = disabled } in
    let row2 : ConnectionRow = record row { status = pending } in
    let (u1, q1, o1) =
      patch_status env id disabled s row t e
        (subst (λ x. OperatorMove x disabled) (sym a) OperatorMove.deactivate) in
    let t1 : IsTable u1.connections =
      subst (λ (r : Outcome ConnectionRow × Api). IsTable r.1.connections) q1
        (update-IsTable env id (only_status disabled) s t) in
    let e1 : get id u1.connections ≡ some row1 = rw o1 (get-put_self id row1 s.connections) in
    let (u2, q2, o2) = patch_status env id pending u1 row1 t1 e1 OperatorMove.reenable in
    let t2 : IsTable u2.connections =
      subst (λ (r : Outcome ConnectionRow × Api). IsTable r.1.connections) q2
        (update-IsTable env id (only_status pending) u1 t1) in
    let e2 : get id u2.connections ≡ some row2 = rw o2 (get-put_self id row2 u1.connections) in
    let (u3, q3, _) =
      activate_succeeds env id u2 row2 t2 e2 refl (unfold passed_test in z)
        (still_free u1 u2 row1 row2 o1 o2) in
    rw q1 (
      rw q2 (
        ap (λ (r : Outcome ConnectionRow × Api). r.0) q3
        ∙ sym (λ i. ok (record row { status = a i }))))
  where
    still_free :
        (u1 u2 : Api) (row1 row2 : ConnectionRow)
        → u1.connections ≡ put id row1 s.connections
        → u2.connections ≡ put id row2 u1.connections
        → FreeSlot id row u2.connections
    still_free u1 u2 row1 row2 o1 o2 k r at x p c = elim (beq_cases id k) [
      | inl same ↦ sym same
      | inr (n, _) ↦
          t.one_active k id r row
            (sym (rw (o2, o1) (get-put_ne id k row2 _ n ∙ get-put_ne id k row1 s.connections n))
              ∙ at)
            e x a p c
    ]

-- In a well-formed registry a successful test that read the connection while it was active writes
-- it back as active, though it was disabled while the probe ran, unless another connection is
-- active for its plant and category by then.
pub store_test_resurrects :
    (now : ℕ) (result : TestConnectionResponse) (id : String) (s : Api)
    (read current : ConnectionRow)
    → IsTable s.connections
    → read.connection_id ≡ id
    → read.status ≡ active
    → result.success ≡ true
    → get id s.connections ≡ some current
    → current.status ≡ disabled
    → FreeSlot id read s.connections
    → (row : ConnectionRow) × (get id (store_test now result read s).1.connections ≡ some row)
      × (row.status ≡ active)
unfolding store_test tested_row status_eq
store_test_resurrects now result id s read current t i a z e d free =
    upsert_then (tested_row now result read) _ s Active t
      (λ _ k r at x p c. free k r at x p c ∙ sym i)
      (λ u o. (tested_row now result read, rw (o, i) (get-put_self id _ s.connections), stays))
  where
    Active : Outcome TestConnectionResponse × Api → Type 0
    Active r = (row : ConnectionRow) × (get id r.1.connections ≡ some row) × (row.status ≡ active)

    stays : (tested_row now result read).status ≡ active
    stays = rw (z, a)
