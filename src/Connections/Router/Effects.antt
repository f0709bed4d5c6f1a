-- ===== src/Connections/Router/Effects.antt =====
-- What a handler of the connections router may do to the table, and how its steps do it.
use industrial_rca.Prelude.{
  String, ◌≡◌, refl, ◌⊎◌, inl, inr, none, some, Option-cases, string_eq, Bool, true, false, ℕ,
}
use industrial_rca.Prelude.Dict.{Dict, get, put, remove}
use industrial_rca.Mar.Rows.{ConnectionRow, pending, disabled}
use industrial_rca.Mar.Repository.Connections.{get_connection}
use industrial_rca.Mar.Repository.Connections.Table.{
  IsTable, IsAdmitted, upsert_connection_admitted,
}
use industrial_rca.Connections.StateMachine.{Move}
use industrial_rca.Connections.Router.Monad.{
  Api, M, Outcome, ok, http, uncaught, ◌>>=◌, require, upsert, upsert_or_conflict, Notice, notify,
  Detail,
}

-- The effects on the table: none, a new pending row, a row of a known id whose status stays or
-- takes an arrow of the life cycle, or the operator's delete.
pub data Effect (by_delete : Bool) (d e : Dict String ConnectionRow) : Type 0 where
  kept : e ≡ d → Effect by_delete d e
  created :
      (row : ConnectionRow)
      → get row.connection_id d ≡ none
      → row.status ≡ pending
      → e ≡ put row.connection_id row d
      → Effect by_delete d e
  moved :
      (old row : ConnectionRow)
      → get row.connection_id d ≡ some old
      → (row.status ≡ old.status) ⊎ Move old.status row.status
      → IsAdmitted row d
      → e ≡ put row.connection_id row d
      → Effect by_delete d e
  closed :
      (row : ConnectionRow)
      → by_delete ≡ true
      → row.status ≡ disabled
      → e ≡ put row.connection_id row d
      → Effect by_delete d e
  deleted :
      (row : ConnectionRow)
      → by_delete ≡ true
      → row.status ≡ disabled
      → e ≡ remove row.connection_id (put row.connection_id row d)
      → Effect by_delete d e

-- A failed request leaves everything as it was, and no repository error escapes.
abbrev pub Settled {ℓ} : {A : Type ℓ} → Api → Outcome A × Api → Type 0
Settled s (ok a, t) = Unit
Settled s (http code detail, t) = t ≡ s
Settled s (uncaught x, t) = ⊥

pub record Handled {ℓ} {A : Type ℓ} (by_delete : Bool) (s : Api) (r : Outcome A × Api)
    : Type 0 where
  pub effect : Effect by_delete s.connections r.1.connections
  pub settled : Settled s r

pub refused-Handled {ℓ} :
    {A : Type ℓ} {b : Bool} (s : Api) {code : ℕ} {d : Detail} → Handled {A = A} b s (http code d, s)
refused-Handled s = record { effect = kept refl; settled = refl }

-- `_require` answers 404, or hands on the row that is stored under the id.
pub require-Handled {ℓ} :
    {A : Type ℓ} {b : Bool} (connection_id : String) (k : ConnectionRow → M A) (s : Api)
    → ((row : ConnectionRow) → get connection_id s.connections ≡ some row → Handled b s (k row s))
    → Handled b s ((require connection_id >>= k) s)
unfolding require get_connection
require-Handled connection_id k s h = elim (Option-cases (get connection_id s.connections)) [
  | inl e ↦ rw e (refused-Handled s)
  | inr (row, e) ↦ rw e (h row e)
]

-- After an admitted row is stored, the handler goes on over a table with that row.
pub upsert_then {ℓ κ} :
    {A : Type ℓ} (row : ConnectionRow) (k : M A) (s : Api) (P : Outcome A × Api → Type κ)
    → IsTable s.connections
    → IsAdmitted row s.connections
    → ((u : Api) → u.connections ≡ put row.connection_id row s.connections → P (k u))
    → P ((upsert row >>= λ _. k) s)
unfolding upsert
upsert_then row k s P t a h =
    rw (upsert_connection_admitted row s.connections t a, upsert) (h _ refl)

pub upsert_or_conflict_then {ℓ κ} :
    {A : Type ℓ} (row : ConnectionRow) (k : M A) (s : Api) (P : Outcome A × Api → Type κ)
    → IsTable s.connections
    → IsAdmitted row s.connections
    → ((u : Api) → u.connections ≡ put row.connection_id row s.connections → P (k u))
    → P ((upsert_or_conflict row >>= λ _. k) s)
unfolding upsert_or_conflict
upsert_or_conflict_then row k s P t a h =
    rw (upsert_connection_admitted row s.connections t a, upsert_or_conflict) (h _ refl)

pub notify_then {ℓ κ} :
    {A : Type ℓ} (b : Bool) (n : Notice) (k : M A) (s : Api) (P : Outcome A × Api → Type κ)
    → ((u : Api) → u.connections ≡ s.connections → P (k u))
    → P ((notify b n >>= λ _. k) s)
notify_then true n k s P h = h _ refl
notify_then false n k s P h = h s refl
