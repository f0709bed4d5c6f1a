-- ===== src/Mar/Repository/Aliases.antt =====
-- packages/mar/src/rca_mar/repository.py: the alias rows of `InMemoryRepository`. The time and the
-- UUID that the code draws are arguments.
pub mod History
pub mod Reviews
use Prim.Native.String.{◌++◌ as str_append}
use industrial_rca.Prelude.{
  ℕ, String, Bool, true, false, ◌&&◌, ◌||◌, not, Option, none, some, List, [], ◌∷◌, ◌++◌, map, ltb,
  leb, str_eq, if◌then◌else◌,
}
use industrial_rca.Mar.Rows.{
  AliasRow, ResolutionStatus, auto_resolved, pending_review, human_validated, rejected, superseded,
  unlisted,
}

abbrev pub is_none {ℓ} : {A : Type ℓ} → Option A → Bool
is_none none = true
is_none (some _) = false

-- `_active`: without a time, the open rows; with one, the rows whose span holds it.
unfoldable pub in_force : AliasRow → Option ℕ → Bool
in_force alias none = is_none alias.valid_to
in_force alias (some t) =
    if ltb t alias.valid_from
    then false
    else (elim alias.valid_to [ none ↦ true | some end ↦ ltb t end ])

-- The row is about the tenant's id in the source.
unfoldable pub about : String → String → String → AliasRow → Bool
about tenant connection_id external_id a =
    str_eq a.tenant_id tenant
    && (str_eq a.connection_id connection_id && str_eq a.external_id external_id)

unfoldable pub find_active_alias :
    String → String → String → Option ℕ → List AliasRow → Option AliasRow
find_active_alias tenant connection_id external_id valid_at [] = none
find_active_alias tenant connection_id external_id valid_at (a ∷ rows) =
    let rest = find_active_alias tenant connection_id external_id valid_at rows in
    if about tenant connection_id external_id a && in_force a valid_at then some a else rest

-- An open row of the same id is closed where the new row begins.
unfoldable pub close_for : AliasRow → AliasRow → AliasRow
close_for alias a =
    if about alias.tenant_id alias.connection_id alias.external_id a && is_none a.valid_to
    then record a { valid_to = some alias.valid_from }
    else a

abbrev or_mint {ℓ} : {A : Type ℓ} → Option A → A → Option A
or_mint none fresh = some fresh
or_mint (some a) fresh = some a

unfoldable pub stored_alias : ℕ → String → AliasRow → AliasRow
stored_alias now fresh alias = record alias {
  alias_id = or_mint alias.alias_id fresh;
  resolved_at = or_mint alias.resolved_at now;
}

unfoldable pub upsert_alias : ℕ → String → AliasRow → List AliasRow → List AliasRow
upsert_alias now fresh alias rows = map (close_for alias) rows ++ stored_alias now fresh alias ∷ []

-- The three review paths: a row is found, changed or left, or an exception is raised.
pub data Review : Type 0 where
  reviewed : AliasRow → List AliasRow → Review
  key_error : Review
  invalid_transition : ResolutionStatus → Review

abbrev pub has_id : String → AliasRow → Bool
has_id alias_id a = elim a.alias_id [ none ↦ false | some i ↦ str_eq i alias_id ]

unfoldable pub get_alias : String → List AliasRow → Option AliasRow
get_alias alias_id [] = none
get_alias alias_id (a ∷ rows) = if has_id alias_id a then some a else get_alias alias_id rows

-- `self.aliases[i] = updated` at the index of the id.
unfoldable pub set_alias : String → AliasRow → List AliasRow → List AliasRow
set_alias alias_id row [] = []
set_alias alias_id row (a ∷ rows) =
    if has_id alias_id a then row ∷ rows else a ∷ set_alias alias_id row rows

-- What a review path does with the row that it found.
pub data Change : Type 0 where
  leave : Change
  refuse : Change
  write : AliasRow → Change

unfoldable pub review : (AliasRow → Change) → String → List AliasRow → Review
review change alias_id rows = elim (get_alias alias_id rows) [
  | none ↦ key_error
  | some row ↦ elim (change row) [
    | leave ↦ reviewed row rows
    | refuse ↦ invalid_transition row.resolution_status
    | write updated ↦ reviewed updated (set_alias alias_id updated rows)
  ]
]

validate_at : ResolutionStatus → AliasRow → Change
validate_at human_validated updated = leave
validate_at rejected updated = refuse
validate_at superseded updated = refuse
validate_at _ updated = write updated

unfoldable pub validate_change : ℕ → String → AliasRow → Change
unfolding validate_at
validate_change now validated_by row = validate_at row.resolution_status (record row {
  resolution_status = human_validated;
  validated_by = some validated_by;
  validated_at = some now;
})

unfoldable pub validate_binding : ℕ → String → String → List AliasRow → Review
validate_binding now alias_id validated_by = review (validate_change now validated_by) alias_id

-- `row.valid_to or now`, and `f"{row.notes}\n{note}" if row.notes else note`.
abbrev pub closed_by : ℕ → Option ℕ → Option ℕ
closed_by now none = some now
closed_by now (some t) = some t

add_note : String → Option String → Option String
add_note note none = some note
add_note note (some old) =
    if str_eq old "" then some note else some (str_append old (str_append "\n" note))

reject_at : ResolutionStatus → AliasRow → Change
reject_at rejected updated = leave
reject_at human_validated updated = refuse
reject_at _ updated = write updated

unfoldable pub reject_change : ℕ → String → String → AliasRow → Change
unfolding reject_at add_note
reject_change now rejected_by reason row = reject_at row.resolution_status (record row {
  resolution_status = rejected;
  valid_to = closed_by now row.valid_to;
  validated_by = some rejected_by;
  validated_at = some now;
  notes = add_note (str_append "rejected: " reason) row.notes;
})

unfoldable pub reject_binding : ℕ → String → String → String → List AliasRow → Review
reject_binding now alias_id rejected_by reason =
    review (reject_change now rejected_by reason) alias_id

supersede_at : ResolutionStatus → AliasRow → Change
supersede_at superseded updated = leave
supersede_at _ updated = write updated

supersede_note : Option String → Bool → String
supersede_note successor system_initiated =
    let by = if system_initiated then "(system)" else "(review)" in
    elim successor [
      | none ↦ str_append "superseded " by
      | some i ↦ str_append "superseded by " (str_append i (str_append " " by))
    ]

unfoldable pub supersede_change : ℕ → Option String → Bool → AliasRow → Change
unfolding supersede_at add_note supersede_note
supersede_change now successor system_initiated row =
    supersede_at row.resolution_status (record row {
      resolution_status = superseded;
      valid_to = closed_by now row.valid_to;
      notes = add_note (supersede_note successor system_initiated) row.notes;
    })

unfoldable pub supersede_binding : ℕ → String → Option String → Bool → List AliasRow → Review
supersede_binding now alias_id successor system_initiated =
    review (supersede_change now successor system_initiated) alias_id
