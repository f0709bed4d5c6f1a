-- ===== src/Connections/Router/Monad.antt =====
-- packages/connections_api/src/rca_connections_api/connections_router.py: a handler changes the
-- registry and returns a body, raises an `HTTPException`, or lets a repository error escape.
use industrial_rca.Prelude.{String, ℕ, Bool, true, false, Option, none, some, List, [], ◌∷◌, ◌++◌}
use industrial_rca.Prelude.Dict.{Dict}
use industrial_rca.Mar.Rows.{ConnectionRow, AliasRow, Status}
use industrial_rca.Mar.Repository.Connections.{
  DuplicateActiveConnection, upsert_connection, stored, duplicate, get_connection,
}
use industrial_rca.Connections.StateMachine.{InvalidTransition}

-- A call of a listener, with the row that it gets.
pub data Notice : Type 0 where
  activated deactivated : ConnectionRow → Notice

pub record Api : Type 0 where
  pub connections : Dict String ConnectionRow
  pub aliases : List AliasRow
  pub notices : List Notice

-- The `detail` of an `HTTPException`, by what it says.
pub data Detail : Type 0 where
  no_connection already_exists test_required : Detail
  illegal_transition : InvalidTransition → Detail
  not_pending : Status → Detail
  category_conflict : String → Detail

pub data Outcome {ℓ} (A : Type ℓ) : Type ℓ where
  ok : A → Outcome A
  http : ℕ → Detail → Outcome A
  uncaught : DuplicateActiveConnection → Outcome A

abbrev pub M {ℓ} : Type ℓ → Type ℓ
M A = Api → Outcome A × Api

abbrev pub then_do {ℓ κ} : {A : Type ℓ} {B : Type κ} → (A → M B) → Outcome A × Api → Outcome B × Api
then_do f (ok a, s) = f a s
then_do f (http c d, s) = (http c d, s)
then_do f (uncaught x, s) = (uncaught x, s)

infixl 5 ◌>>=◌ ◌>>◌
abbrev pub ◌>>=◌ {ℓ κ} : {A : Type ℓ} {B : Type κ} → M A → (A → M B) → M B
◌>>=◌ m f s = then_do f (m s)

abbrev pub ◌>>◌ {ℓ κ} : {A : Type ℓ} {B : Type κ} → M A → M B → M B
m >> k = m >>= λ _. k

abbrev pub return {ℓ} : {A : Type ℓ} → A → M A
return a s = (ok a, s)

abbrev pub raise {ℓ} : {A : Type ℓ} → ℕ → Detail → M A
raise code detail s = (http code detail, s)

abbrev pub unless : Bool → ℕ → Detail → M (Unit {0})
unless true code detail = return tt
unless false code detail = raise code detail

-- `await repo.get_connection(id)`.
unfoldable pub look_up : String → M (Option ConnectionRow)
unfolding get_connection
look_up connection_id s = (ok (get_connection connection_id s.connections), s)

abbrev found : Option ConnectionRow → M ConnectionRow
found (some row) = return row
found none = raise 404 no_connection

-- `_require`.
unfoldable pub require : String → M ConnectionRow
unfolding look_up
require connection_id = look_up connection_id >>= found

-- `await repo.upsert_connection(row)`, whose error escapes.
unfoldable pub upsert : ConnectionRow → M (Unit {0})
upsert row s = elim (upsert_connection row s.connections) [
  | stored d ↦ (ok tt, record s { connections = d })
  | duplicate x ↦ (uncaught x, s)
]

-- The same under `except DuplicateActiveConnection`.
unfoldable pub upsert_or_conflict : ConnectionRow → M (Unit {0})
upsert_or_conflict row s = elim (upsert_connection row s.connections) [
  | stored d ↦ (ok tt, record s { connections = d })
  | duplicate x ↦ (http 409 (category_conflict x.existing_connection_id), s)
]

-- `if listener is not None: try: await listener(row)`, the failure logged and dropped.
abbrev pub notify : Bool → Notice → M (Unit {0})
notify false notice s = (ok tt, s)
notify true notice s = (ok tt, record s { notices = s.notices ++ notice ∷ [] })
