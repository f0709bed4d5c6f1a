-- ===== src/Mar/Repository/Pending.antt =====
-- packages/mar/src/rca_mar/repository.py: the pending bindings and the active aliases of a
-- connection.
use industrial_rca.Prelude.{
  le→leb, lt→not_leb, ℕ, zero, suc, ◌+◌, ◌≤◌, String, Bool, true, false, ◌&&◌, ◌≡◌, refl, ap, ◌⊎◌,
  inl, inr, Option, none, some, List, [], ◌∷◌, leb, take, keep_if, str_eq, if◌then◌else◌, arith,
  Bool-cases, string_eq, pair_eq,
}
use industrial_rca.Prelude.Dict.{Dict, get}
use industrial_rca.Mar.Rows.{AliasRow, AssetDescriptor, ResolutionStatus, pending_review}
use industrial_rca.Mar.Repository.{InMemoryRepository}
use industrial_rca.Mar.Repository.Aliases.{is_none}

unfoldable pub list_active_aliases_for_connection : String → String → List AliasRow → List AliasRow
list_active_aliases_for_connection tenant connection_id =
    keep_if (λ a.
      str_eq a.tenant_id tenant && (str_eq a.connection_id connection_id && is_none a.valid_to))

-- The last test of the loop: the row's asset is known and of the plant.
unfoldable pub of_plant :
    Option String → Dict (String × String) AssetDescriptor → String → AliasRow → Bool
of_plant none assets tenant a = true
of_plant (some plant_id) assets tenant a = elim (get (tenant, a.asset_id) assets) [
  | none ↦ false
  | some asset ↦ str_eq asset.plant_id plant_id
]

abbrev wants_connection : Option String → AliasRow → Bool
wants_connection none a = true
wants_connection (some connection_id) a = str_eq a.connection_id connection_id

abbrev awaits_review : ResolutionStatus → Bool
awaits_review pending_review = true
awaits_review _ = false

-- The row passes every `continue` of the loop.
unfoldable pub is_listed :
    String
    → Option String
    → Option String
    → Dict (String × String) AssetDescriptor
    → AliasRow
    → Bool
unfolding of_plant
is_listed tenant plant_id connection_id assets a =
    str_eq a.tenant_id tenant
    && (awaits_review a.resolution_status
        && (is_none a.valid_to
            && (wants_connection connection_id a && of_plant plant_id assets tenant a)))

-- The loop, with the number of rows already in `out`.
unfoldable pub pending_loop : (AliasRow → Bool) → ℕ → ℕ → List AliasRow → List AliasRow
pending_loop wanted limit n [] = []
pending_loop wanted limit n (a ∷ rows) =
    let next = pending_loop wanted limit (suc n) rows in
    let same = pending_loop wanted limit n rows in
    if wanted a then (if leb limit (suc n) then a ∷ [] else a ∷ next) else same

unfoldable pub list_pending_bindings :
    String → Option String → Option String → ℕ → InMemoryRepository → List AliasRow
unfolding pending_loop is_listed
list_pending_bindings tenant plant_id connection_id limit repo =
    pending_loop (is_listed tenant plant_id connection_id repo.assets) limit 0 repo.aliases

loop_takes :
    (wanted : AliasRow → Bool) (limit n k : ℕ) (rows : List AliasRow)
    → limit ≤ n + suc k
    → (k ≡ 0) ⊎ (n + suc k ≤ limit)
    → pending_loop wanted limit n rows ≡ take (suc k) (keep_if wanted rows)
unfolding pending_loop keep_if
loop_takes wanted limit n k [] h l = refl
loop_takes wanted limit n k (a ∷ rows) h l = elim (Bool-cases (wanted a)) [
  | inr z ↦ rw (z, pending_loop, keep_if) (loop_takes wanted limit n k rows h l)
  | inl y ↦
      rw (y, pending_loop, keep_if)
        (chosen k (λ j p q. loop_takes wanted limit (suc n) j rows p (inr q)) h l)
]
  where
    chosen :
        (j : ℕ)
        → ((i : ℕ)
            → limit ≤ suc n + suc i
            → suc n + suc i ≤ limit
            → pending_loop wanted limit (suc n) rows ≡ take (suc i) (keep_if wanted rows))
        → limit ≤ n + suc j
        → (j ≡ 0) ⊎ (n + suc j ≤ limit)
        → (if leb limit (suc n) then a ∷ [] else a ∷ pending_loop wanted limit (suc n) rows)
          ≡ a ∷ take j (keep_if wanted rows)
    chosen zero ih p q = rw (le→leb limit (suc n) (omega arith)) refl
    chosen (suc j) ih p (inl q) = absurd (ground arith)
    chosen (suc j) ih p (inr q) =
        rw (lt→not_leb (suc n) limit (omega arith)) (ap (◌∷◌ a) (ih j (omega arith) (omega arith)))

abbrev pub at_least_one : ℕ → ℕ
at_least_one zero = 1
at_least_one (suc n) = suc n

-- The pending bindings are the first `limit` of the rows that pass every filter, in the table's
-- order; a limit of zero still answers the first.
pub list_pending_bindings-take :
    (tenant : String) (plant_id connection_id : Option String) (limit : ℕ)
    (repo : InMemoryRepository)
    → list_pending_bindings tenant plant_id connection_id limit repo
      ≡ take
          (at_least_one limit)
          (keep_if (is_listed tenant plant_id connection_id repo.assets) repo.aliases)
unfolding list_pending_bindings
list_pending_bindings-take tenant plant_id connection_id zero repo =
    loop_takes _ 0 0 0 repo.aliases (omega arith) (inl refl)
list_pending_bindings-take tenant plant_id connection_id (suc m) repo =
    loop_takes _ (suc m) 0 m repo.aliases (omega arith) (inr (omega arith))
