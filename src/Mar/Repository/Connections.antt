-- ===== src/Mar/Repository/Connections.antt =====
-- packages/mar/src/rca_mar/repository.py: the connection table of `InMemoryRepository`.
pub mod Table
use industrial_rca.Prelude.{
  String, Bool, true, false, ◌&&◌, not, Option, none, some, List, [], ◌∷◌, str_eq, if◌then◌else◌,
  keep_if, string_eq,
}
use industrial_rca.Prelude.Dict.{Dict, get, put, remove, values}
use industrial_rca.Mar.Rows.{ConnectionRow, Status, active, status_eq}

-- `DuplicateActiveConnection`: its plant, category and the id that is active there.
pub record DuplicateActiveConnection : Type 0 where
  pub plant_id : String
  pub category : String
  pub existing_connection_id : String

pub data Upsert : Type 0 where
  stored : Dict String ConnectionRow → Upsert
  duplicate : DuplicateActiveConnection → Upsert

-- The test of the loop of `upsert_connection`.
unfoldable pub rivals : ConnectionRow → ConnectionRow → Bool
rivals conn existing =
    not (str_eq existing.connection_id conn.connection_id)
    && (str_eq existing.plant_id conn.plant_id
        && (str_eq existing.category conn.category && status_eq existing.status active))

-- The first rival among the rows, in dictionary order.
unfoldable pub first_rival : ConnectionRow → Dict String ConnectionRow → Option ConnectionRow
first_rival conn [] = none
first_rival conn ((k, r) ∷ d) = if rivals conn r then some r else first_rival conn d

unfoldable pub upsert_connection : ConnectionRow → Dict String ConnectionRow → Upsert
upsert_connection conn d =
    if status_eq conn.status active
    then (elim (first_rival conn d) [
      | none ↦ stored (put conn.connection_id conn d)
      | some r ↦ duplicate (record {
        plant_id = conn.plant_id;
        category = conn.category;
        existing_connection_id = r.connection_id;
      })
    ])
    else stored (put conn.connection_id conn d)

unfoldable pub get_connection : String → Dict String ConnectionRow → Option ConnectionRow
get_connection = get

unfoldable pub delete_connection : String → Dict String ConnectionRow → Dict String ConnectionRow
delete_connection = remove

-- A filter that may be left off: `x is None or value == x`.
abbrev pub wants : Option String → String → Bool
wants none v = true
wants (some w) v = str_eq v w

abbrev pub wants_status : Option Status → Status → Bool
wants_status none v = true
wants_status (some w) v = status_eq v w

abbrev pub listed : Option String → Option String → Option Status → ConnectionRow → Bool
listed plant category status c =
    wants plant c.plant_id && (wants category c.category && wants_status status c.status)

unfoldable pub list_connections :
    Option String → Option String → Option Status → Dict String ConnectionRow → List ConnectionRow
list_connections plant category status d = keep_if (listed plant category status) (values d)
