-- ===== src/Connections/Router/Invariant.antt =====
-- Each handler of the connections router has one of the effects, and so keeps the table.
use industrial_rca.Prelude.{
  ℕ, String, ◌≡◌, refl, ◌∙◌, ◌⊎◌, inl, inr, ◌&&◌, Bool, true, false, Option, none, some,
  Option-cases, Bool-cases, string_eq, subst, sym, All, ◌==◌, ◌∷◌, ap₂, beq_cases, eq_refl, [],
  keep_if, ◌≢◌, arith, eq_iff,
}
use industrial_rca.Prelude.Dict.{Dict, get, put, remove, Unique, values}
use industrial_rca.Mar.Rows.{
  ConnectionRow, Status, pending, active, error, status_eq, disabled, status_eq→≡,
}
use industrial_rca.Mar.Repository.Connections.{
  get_connection, delete_connection, list_connections, listed,
}
use industrial_rca.Mar.Repository.Connections.Table.{IsTable, IsAdmitted, list_connections_all}
use industrial_rca.Connections.StateMachine.{
  Move, OperatorMove, assert_patch_transition, assert_patch_transition_iff, InvalidTransition,
  Verdict-cases, OperatorMove-Move,
}
use industrial_rca.Connections.Router.Monad.{
  Api, ok, http, ◌>>=◌, return, notify, illegal_transition, then_do, category_conflict, ◌>>◌,
  upsert_or_conflict, activated, deactivated, Outcome,
}
use industrial_rca.Connections.Router.Requests.{
  CreateConnectionRequest, Env, UpdateConnectionRequest,
}
use industrial_rca.Connections.Router.Handlers.{
  create_connection, connection_id_of, created_row, patched_status, test_connection, test_result,
  tested_row, tested_status, given, update_connection, patched_row, drop_unreferenced,
  delete_handler, activate_connection, refuse_others, count_aliases_for_connection, active_rows,
  passed_test, is_disabled,
}
use industrial_rca.Connections.Router.Effects.{
  created, moved, Handled, refused-Handled, require-Handled, upsert_then, upsert_or_conflict_then,
  notify_then, deleted, upsert_then, upsert_or_conflict_then, notify_then, closed,
}

pub create_connection-Handled :
    (body : CreateConnectionRequest) (s : Api)
    → IsTable s.connections
    → Handled false s (create_connection body s)
unfolding create_connection get_connection
create_connection-Handled body s t =
    elim (Option-cases (get (connection_id_of body) s.connections)) [
      | inl e ↦
          rw (e, create_connection)
            (upsert_then (created_row body) (return (created_row body)) s (Handled false s) t
              (λ a. cc)
              (λ u q. record { effect = created (created_row body) e refl q; settled = tt }))
      | inr (row, e) ↦ rw (e, create_connection) (refused-Handled s)
    ]

-- A row that keeps its place and is active only if it was so is admitted.
pub same_place-IsAdmitted :
    (d : Dict String ConnectionRow) (old row : ConnectionRow)
    → IsTable d
    → get row.connection_id d ≡ some old
    → row.plant_id ≡ old.plant_id
    → row.category ≡ old.category
    → (row.status ≡ active → old.status ≡ active)
    → IsAdmitted row d
same_place-IsAdmitted d old row t e p c h a k r at x q w =
    t.one_active k row.connection_id r old at e x (h a) (q ∙ p) (w ∙ c)

tested_status_moves :
    (b : Bool) (s : Status)
    → ((tested_status b s ≡ s) ⊎ Move s (tested_status b s))
      × (tested_status b s ≡ active → s ≡ active)
unfolding tested_status status_eq
tested_status_moves true error = (inr Move.test_succeeded, λ e. cc)
tested_status_moves true s = (inl refl, λ e. e)
tested_status_moves false pending = (inr Move.test_failed, λ e. cc)
tested_status_moves false active = (inr Move.health_failed, λ e. refl)
tested_status_moves false s = (inl refl, λ e. e)

pub test_connection-Handled :
    (env : Env) (now : ℕ) (connection_id : String) (s : Api)
    → IsTable s.connections
    → Handled false s (test_connection env now connection_id s)
unfolding test_connection
test_connection-Handled env now connection_id s t = require-Handled connection_id _ s (λ row e.
    let keyed = t.keyed connection_id row e in
    let result = test_result env row in
    let row' = tested_row now result row in
    let at : get row.connection_id s.connections ≡ some row =
      subst (λ i. get i s.connections ≡ some row) (sym keyed) e in
    let moves = tested_status_moves result.success row.status in
    let a = same_place-IsAdmitted s.connections row row' t at refl refl moves.1 in
    upsert_then row' (return result) s (Handled false s) t a
      (λ u q. record { effect = moved row row' at moves.0 a q; settled = tt }))

patched_status_cases :
    (row : ConnectionRow) (o : Option Status) (s : Api)
    → ((st : Option Status) × (patched_status row o s ≡ (ok st, s))
        × ((given st row.status ≡ row.status) ⊎ OperatorMove row.status (given st row.status)))
      ⊎ ((i : InvalidTransition) × (patched_status row o s ≡ (http 409 (illegal_transition i), s)))
unfolding patched_status
patched_status_cases row none s = inl (none, refl, inl refl)
patched_status_cases row (some st) s = elim (Bool-cases (status_eq st row.status)) [
  | inl y ↦ inl (none, rw y, inl refl)
  | inr n ↦ elim (Verdict-cases (assert_patch_transition row.status st)) [
    | inl e ↦ inl (some st, rw (n, e), inr ((assert_patch_transition_iff row.status st).0 e))
    | inr (i, e) ↦ inr (i, rw (n, e))
  ]
]

moved_Handled {ℓ} :
    {A : Type ℓ} (s t : Api) (a : A) (old row : ConnectionRow)
    → get row.connection_id s.connections ≡ some old
    → (row.status ≡ old.status) ⊎ Move old.status row.status
    → IsAdmitted row s.connections
    → t.connections ≡ put row.connection_id row s.connections
    → Handled false s (ok a, t)
moved_Handled s t a old row at m ad e = record { effect = moved old row at m ad e; settled = tt }

operator_moves :
    (s t : Status) → (t ≡ s) ⊎ OperatorMove s t → ((t ≡ s) ⊎ Move s t) × (t ≡ active → s ≡ active)
operator_moves s t (inl e) = (inl e, λ a. sym e ∙ a)
operator_moves s t (inr m) = (inr (OperatorMove-Move m), not_active m)
  where
    not_active : {x y : Status} → OperatorMove x y → y ≡ active → x ≡ active
    not_active OperatorMove.deactivate e = refl
    not_active OperatorMove.reenable e = cc

pub update_connection-Handled :
    (env : Env) (connection_id : String) (body : UpdateConnectionRequest) (s : Api)
    → IsTable s.connections
    → Handled false s (update_connection env connection_id body s)
unfolding update_connection
update_connection-Handled env connection_id body s t = require-Handled connection_id _ s (λ row e.
    elim (patched_status_cases row body.status s) [
      | inl (st, p, m) ↦
          let row' = patched_row row body st in
          let at : get row.connection_id s.connections ≡ some row =
            subst (λ i. get i s.connections ≡ some row) (sym (t.keyed connection_id row e)) e in
          let moves = operator_moves row.status (given st row.status) m in
          let a = same_place-IsAdmitted s.connections row row' t at refl refl moves.1 in
          rw (p, then_do)
            (upsert_or_conflict_then row' _ s (Handled false s) t a (λ u q.
              notify_then (env.on_deactivate && is_disabled st) (deactivated row') _ u
                (Handled false s) (λ w o. moved_Handled s w row' row row' at moves.0 a (o ∙ q))))
      | inr (i, p) ↦ rw (p, then_do) (refused-Handled s)
    ])

drop_unreferenced-Handled :
    (connection_id : String) (row : ConnectionRow) (s u : Api)
    → row.connection_id ≡ connection_id
    → row.status ≡ disabled
    → u.connections ≡ put row.connection_id row s.connections
    → Handled true s (drop_unreferenced connection_id row u)
unfolding drop_unreferenced delete_connection
drop_unreferenced-Handled connection_id row s u i d q =
    elim (Bool-cases (count_aliases_for_connection connection_id u.aliases == 0)) [
      | inl y ↦
          rw (y, drop_unreferenced)
            (record { effect = deleted row refl d (ap₂ remove (sym i) q); settled = tt })
      | inr n ↦ rw (n, drop_unreferenced) (record { effect = closed row refl d q; settled = tt })
    ]

pub delete_handler-Handled :
    (env : Env) (connection_id : String) (s : Api)
    → IsTable s.connections
    → Handled true s (delete_handler env connection_id s)
unfolding delete_handler
delete_handler-Handled env connection_id s t = require-Handled connection_id _ s (λ row e.
    let row' : ConnectionRow = record row { status = disabled } in
    upsert_then row' _ s (Handled true s) t (λ a. cc)
      (λ u q. notify_then env.on_deactivate (deactivated row') _ u (Handled true s) (λ w o.
        drop_unreferenced-Handled connection_id row' s w (t.keyed connection_id row e) refl
          (o ∙ q))))

-- The loop over the rows that a test picks: it passes when they all have the id, and else names a
-- stored row that the test picks.
pub refuse_others_cases :
    (connection_id : String) (p : ConnectionRow → Bool) (d : Dict String ConnectionRow) (s : Api)
    → Unique d
    → ((refuse_others connection_id (keep_if p (values d)) s ≡ (ok tt, s))
        × All (λ r. r.connection_id ≡ connection_id) (keep_if p (values d)))
      ⊎ ((k : String) × (r : ConnectionRow) × (refuse_others connection_id (keep_if p (values d)) s
            ≡ (http 409 (category_conflict r.connection_id), s))
          × (get k d ≡ some r)
          × (p r ≡ true)
          × (r.connection_id ≢ connection_id))
unfolding keep_if get
refuse_others_cases connection_id p [] s u = inl (refl, tt)
refuse_others_cases connection_id p ((j, r) ∷ d) s u =
    let rest = refuse_others_cases connection_id p d s u.1 in
    elim (Bool-cases (p r)) [
      | inr n ↦ elim rest [
        | inl (q, all) ↦ inl (rw (n, keep_if) q, rw (n, keep_if) all)
        | inr (k, x, q, e, h, ne) ↦ inr (k, x, rw (n, keep_if) q, deeper k x e, h, ne)
      ]
      | inl y ↦ elim (beq_cases r.connection_id connection_id) [
        | inr (ne, b) ↦ inr (j, r, rw (y, keep_if) (rw b), first, y, ne)
        | inl same ↦ elim rest [
          | inl (q, all) ↦ inl (rw (y, keep_if) (pass same q), rw (y, keep_if) (same, all))
          | inr (k, x, q, e, h, ne) ↦ inr (k, x, rw (y, keep_if) (pass same q), deeper k x e, h, ne)
        ]
      ]
    ]
  where
    first : get j ((j, r) ∷ d) ≡ some r
    first = ground (arith, eq_iff j j)

    deeper : (k : String) (x : ConnectionRow) → get k d ≡ some x → get k ((j, r) ∷ d) ≡ some x
    deeper k x e = ground (arith, eq_iff j k, u.0)

    pass :
        {o : Outcome (Unit {0}) × Api}
        → r.connection_id ≡ connection_id
        → refuse_others connection_id (keep_if p (values d)) s ≡ o
        → refuse_others connection_id (r ∷ keep_if p (values d)) s ≡ o
    pass same q = rw (same, eq_refl connection_id) q

pub activate_connection-Handled :
    (env : Env) (connection_id : String) (s : Api)
    → IsTable s.connections
    → Handled false s (activate_connection env connection_id s)
unfolding activate_connection list_connections
activate_connection-Handled env connection_id s t = require-Handled connection_id _ s (λ row e.
    elim (Bool-cases (status_eq row.status pending)) [
      | inr n ↦ rw (n, then_do) (refused-Handled s)
      | inl y ↦ elim (Bool-cases (passed_test row)) [
        | inr n ↦ rw (y, n) (refused-Handled s)
        | inl z ↦ rw (y, z) (take_place row e (status_eq→≡ row.status pending y))
      ]
    ])
  where
    take_place :
        (row : ConnectionRow)
        → get connection_id s.connections ≡ some row
        → row.status ≡ pending
        → Handled false s (
            (active_rows row >>= λ others.
            refuse_others connection_id others
            >> (upsert_or_conflict (record row { status = active })
                >> (notify env.on_activate (activated (record row { status = active }))
                    >> return (record row { status = active }))))
              s)
    take_place row e y =
        let row' : ConnectionRow = record row { status = active } in
        let keyed = t.keyed connection_id row e in
        let at : get row.connection_id s.connections ≡ some row =
          subst (λ i. get i s.connections ≡ some row) (sym keyed) e in
        elim (refuse_others_cases connection_id
          (listed (some row.plant_id) (some row.category) (some active)) s.connections s t.unique) [
            | inr (k, x, q, _, _, _) ↦ rw (q, then_do) (refused-Handled s)
            | inl (q, all) ↦
                let a : IsAdmitted row' s.connections = λ _ k r at_k x p c.
                  sym (t.keyed k r at_k)
                  ∙ list_connections_all (λ r'. r'.connection_id ≡ connection_id) row.plant_id
                      row.category active s.connections k r all at_k p c x
                  ∙ sym keyed in
                rw (q, then_do)
                  (upsert_or_conflict_then row' _ s (Handled false s) t a (λ u o.
                    notify_then env.on_activate (activated row') _ u (Handled false s) (λ w n.
                      moved_Handled s w row' row row' at (inr (rw y Move.activate)) a (n ∙ o))))
          ]
