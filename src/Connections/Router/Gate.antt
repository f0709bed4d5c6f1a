-- ===== src/Connections/Router/Gate.antt =====
-- packages/connections_api/src/rca_connections_api/connections_router.py, `activate_connection`:
-- what an activation has checked, and whom it names on a conflict.
use industrial_rca.Prelude.{
  ℕ, String, ◌≡◌, ◌≢◌, refl, sym, ap, ◌∙◌, ◌⊎◌, inl, inr, true, some, arith, string_eq,
  Option-cases, Bool-cases, eq_iff,
}
use industrial_rca.Prelude.Dict.{Dict, get, put}
use industrial_rca.Mar.Rows.{ConnectionRow, pending, active, status_eq, status_eq→≡}
use industrial_rca.Mar.Repository.Connections.{get_connection, list_connections, listed}
use industrial_rca.Mar.Repository.Connections.Table.{IsTable, IsAdmitted, list_connections_all}
use industrial_rca.Connections.Router.Monad.{
  Api, Outcome, M, ok, http, then_do, ◌>>=◌, ◌>>◌, require, look_up, notify, activated,
  category_conflict, not_pending, test_required, upsert_or_conflict, return, Detail, no_connection,
}
use industrial_rca.Connections.Router.Requests.{Env}
use industrial_rca.Connections.Router.Handlers.{
  activate_connection, active_rows, refuse_others, passed_test,
}
use industrial_rca.Connections.Router.Effects.{upsert_or_conflict_then, notify_then}
use industrial_rca.Connections.Router.Invariant.{refuse_others_cases}

-- The rest of `activate_connection` once the status and the test are checked.
abbrev take_place : Env → String → ConnectionRow → M ConnectionRow
take_place env connection_id row = active_rows row >>= λ others.
    refuse_others connection_id others
    >> (upsert_or_conflict (record row { status = active })
        >> (notify env.on_activate (activated (record row { status = active }))
            >> return (record row { status = active })))

activate_unlocked :
    (env : Env) (id : String) (s : Api) (row : ConnectionRow)
    → get id s.connections ≡ some row
    → row.status ≡ pending
    → passed_test row ≡ true
    → activate_connection env id s ≡ take_place env id row s
unfolding activate_connection require look_up get_connection status_eq
activate_unlocked env id s row e p z = rw (e, activate_connection) (rw (p, z))

-- An activation meets the gate, or is refused with nothing changed.
activate_cases :
    (env : Env) (id : String) (s : Api)
    → ((row : ConnectionRow) × (get id s.connections ≡ some row)
        × (row.status ≡ pending)
        × (passed_test row ≡ true))
      ⊎ ((code : ℕ) × (d : Detail) × (activate_connection env id s ≡ (http code d, s)))
unfolding activate_connection require look_up get_connection
activate_cases env id s = elim (Option-cases (get id s.connections)) [
  | inl e ↦ inr (404, no_connection, rw (e, activate_connection))
  | inr (row, e) ↦ elim (Bool-cases (status_eq row.status pending)) [
    | inr n ↦ inr (409, not_pending row.status, rw (e, activate_connection) (rw (n, then_do)))
    | inl y ↦ elim (Bool-cases (passed_test row)) [
      | inr n ↦ inr (409, test_required, rw (e, activate_connection) (rw (y, n)))
      | inl z ↦ inl (row, e, status_eq→≡ row.status pending y, z)
    ]
  ]
]

-- Nobody but `id` is active for the plant and category of `row`.
abbrev pub FreeSlot : String → ConnectionRow → Dict String ConnectionRow → Type 0
FreeSlot id row d =
    (k : String) (r : ConnectionRow)
    → get k d ≡ some r
    → r.status ≡ active
    → r.plant_id ≡ row.plant_id
    → r.category ≡ row.category
    → k ≡ id

listed_parts :
    (row r : ConnectionRow)
    → listed (some row.plant_id) (some row.category) (some active) r ≡ true
    → (r.plant_id ≡ row.plant_id) × (r.category ≡ row.category) × (r.status ≡ active)
listed_parts row r h = (
  ground (arith, eq_iff r.plant_id row.plant_id),
  ground (arith, eq_iff r.category row.category),
  status_eq→≡ r.status active (ground arith),
)

take_place_cases :
    (env : Env) (id : String) (row : ConnectionRow) (s : Api)
    → IsTable s.connections
    → get id s.connections ≡ some row
    → (FreeSlot id row s.connections
        × ((u : Api) × (take_place env id row s ≡ (ok (record row { status = active }), u))
            × (u.connections ≡ put id (record row { status = active }) s.connections)))
      ⊎ ((k : String) × (r : ConnectionRow) × (get k s.connections ≡ some r)
          × (r.status ≡ active)
          × (r.plant_id ≡ row.plant_id)
          × (r.category ≡ row.category)
          × (k ≢ id)
          × (take_place env id row s ≡ (http 409 (category_conflict k), s)))
unfolding active_rows list_connections
take_place_cases env id row s t e =
    elim (refuse_others_cases id (listed (some row.plant_id) (some row.category) (some active))
      s.connections s t.unique) [
        | inr (k, r, q, at, h, n) ↦
            let (p, c, a) = listed_parts row r h in
            let keyed = t.keyed k r at in
            inr (k, r, at, a, p, c, (λ i. n (keyed ∙ i)), rw (q, then_do) (rw keyed))
        | inl (q, all) ↦
            let row' : ConnectionRow = record row { status = active } in
            let keyed = t.keyed id row e in
            let free : FreeSlot id row s.connections = λ k r at x p c.
              sym (t.keyed k r at)
              ∙ list_connections_all (λ r'. r'.connection_id ≡ id) row.plant_id row.category active
                  s.connections k r all at p c x in
            let a : IsAdmitted row' s.connections =
              λ _ k r at x p c. free k r at x p c ∙ sym keyed in
            inl (
              free,
              rw (q, then_do)
                  (upsert_or_conflict_then row' _ s (Ends row') t a (λ u o.
                    notify_then env.on_activate (activated row') _ u (Ends row')
                      (λ w n. (w, refl, n ∙ o ∙ ap (λ i. put i row' s.connections) keyed)))),
            )
      ]
  where
    Ends : ConnectionRow → Outcome ConnectionRow × Api → Type 0
    Ends row' r = (u : Api) × (r ≡ (ok row', u)) × (u.connections ≡ put id row' s.connections)

-- In a well-formed registry a connection is activated only when it was pending, its last recorded
-- test had succeeded and no other connection was active for its plant and category; then it is
-- stored as active, and nothing else in the table changes.
pub activate_gate :
    (env : Env) (id : String) (s u : Api) (row : ConnectionRow)
    → IsTable s.connections
    → activate_connection env id s ≡ (ok row, u)
    → (old : ConnectionRow) × (get id s.connections ≡ some old)
      × (old.status ≡ pending)
      × (passed_test old ≡ true)
      × FreeSlot id old s.connections
      × (row ≡ record old { status = active })
      × (u.connections ≡ put id row s.connections)
activate_gate env id s u row t h = elim (activate_cases env id s) [
  | inr (code, d, q) ↦ cc
  | inl (old, e, p, z) ↦ elim (take_place_cases env id old s t e) [
    | inr (k, r, at, a, pl, c, n, q) ↦ cc (activate_unlocked env id s old e p z)
    | inl (free, (w, q, o)) ↦
        let same = sym h ∙ activate_unlocked env id s old e p z ∙ q in
        let r : row ≡ record old { status = active } = cc in
        let v : u ≡ w = cc in
        (
          old,
          e,
          p,
          z,
          free,
          r,
          ap (λ (x : Api). x.connections) v ∙ o ∙ ap (λ x. put id x s.connections) (sym r),
        )
  ]
]

-- In a well-formed registry a tested pending connection whose plant and category have another
-- active connection `k` is refused with a 409 that names `k`, and nothing changes.
pub activate_conflict :
    (env : Env) (id k : String) (s : Api) (row other : ConnectionRow)
    → IsTable s.connections
    → get id s.connections ≡ some row
    → row.status ≡ pending
    → passed_test row ≡ true
    → get k s.connections ≡ some other
    → other.status ≡ active
    → other.plant_id ≡ row.plant_id
    → other.category ≡ row.category
    → k ≢ id
    → activate_connection env id s ≡ (http 409 (category_conflict k), s)
activate_conflict env id k s row other t e p z at a pl c n =
    elim (take_place_cases env id row s t e) [
      | inl (free, _) ↦ absurd (n (free k other at a pl c))
      | inr (j, r, at', a', pl', c', n', q) ↦
          let same = t.one_active j k r other at' at a' a (pl' ∙ sym pl) (c' ∙ sym c) in
          activate_unlocked env id s row e p z ∙ q ∙ rw same
    ]

-- In a well-formed registry a pending connection whose last recorded test had succeeded, however old that
-- test is and even if the connection was disabled and re-enabled since, is activated when its plant and
-- category are free: the answer and the table hold it as active.
pub activate_succeeds :
    (env : Env) (id : String) (s : Api) (row : ConnectionRow)
    → IsTable s.connections
    → get id s.connections ≡ some row
    → row.status ≡ pending
    → passed_test row ≡ true
    → FreeSlot id row s.connections
    → (u : Api) × (activate_connection env id s ≡ (ok (record row { status = active }), u))
      × (u.connections ≡ put id (record row { status = active }) s.connections)
activate_succeeds env id s row t e p z free = elim (take_place_cases env id row s t e) [
  | inl (_, (u, q, o)) ↦ (u, activate_unlocked env id s row e p z ∙ q, o)
  | inr (k, r, at, a, pl, c, n, q) ↦ absurd (n (free k r at a pl c))
]
