-- ===== src/Onboarding/Reconcile.antt =====
-- packages/onboarding/src/rca_onboarding/activities.py: `_reconcile_decommission_impl`. An exception
-- of the repository is `none`; `clock n` is what the `n`-th reading of the clock answers.
pub mod Supersession
pub mod Marks
pub mod Outcome
use industrial_rca.Prelude.{
  ℕ, suc, ◌+◌, ◌*◌, String, true, false, Option, none, some, List, [], ◌∷◌, mem_text,
}
use industrial_rca.Mar.Rows.{AliasRow}
use industrial_rca.Mar.Repository.{InMemoryRepository}
use industrial_rca.Mar.Repository.Aliases.{
  supersede_binding, reviewed, key_error, invalid_transition,
}
use industrial_rca.Mar.Repository.Assets.{decommission_asset}
use industrial_rca.Mar.Repository.Pending.{list_active_aliases_for_connection}

-- The supersession, which a row without an id skips.
unfoldable pub superseded_rows : ℕ → Option String → List AliasRow → Option (List AliasRow)
superseded_rows now none rows = some rows
superseded_rows now (some alias_id) rows = elim (supersede_binding now alias_id none true rows) [
  | reviewed row updated ↦ some updated
  | key_error ↦ none
  | invalid_transition status ↦ none
]

unfoldable pub reconcile_loop :
    (ℕ → ℕ)
    → String
    → List String
    → List AliasRow
    → ℕ × InMemoryRepository
    → Option (ℕ × InMemoryRepository)
unfolding superseded_rows
reconcile_loop clock tenant seen [] acc = some acc
reconcile_loop clock tenant seen (a ∷ active) (decommissioned, repo) =
    elim (mem_text a.external_id seen) [
      | true ↦ reconcile_loop clock tenant seen active (decommissioned, repo)
      | false ↦ elim (superseded_rows (clock (2 * decommissioned)) a.alias_id repo.aliases) [
        | none ↦ none
        | some rows ↦ reconcile_loop clock tenant seen active (
          suc decommissioned,
          decommission_asset (clock (2 * decommissioned + 1)) tenant a.asset_id
              (record repo { aliases = rows }),
        )
      ]
    ]

unfoldable pub reconcile_decommission :
    (ℕ → ℕ) → String → String → List String → InMemoryRepository → Option (ℕ × InMemoryRepository)
unfolding reconcile_loop
reconcile_decommission clock tenant connection_id seen repo =
    reconcile_loop clock tenant seen
      (list_active_aliases_for_connection tenant connection_id repo.aliases) (0, repo)
