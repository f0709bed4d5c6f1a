-- ===== src/Mar/Cache.antt =====
-- packages/mar/src/rca_mar/cache.py, `ResolutionCache`. `get_or_load` awaits the loader, and other
-- calls may run meanwhile: what comes before and after the await are two functions.
pub mod Bounds
pub mod Runs
mod Tests
use industrial_rca.Prelude.{
  ℕ, ◌+◌, String, Bool, true, false, Option, none, some, List, [], ◌∷◌, ◌++◌, ltb, length,
  if◌then◌else◌, string_eq, pair_eq,
}
use industrial_rca.Prelude.Dict.{Dict, get, put, remove}

abbrev pub Key : Type 0
Key = String × (String × String)

-- `_data`, the least recently used first; a value carries the time when it was stored.
abbrev pub Data {ℓ} : Type ℓ → Type ℓ
Data V = Dict Key (ℕ × V)

-- `move_to_end(key)`.
unfoldable pub move_to_end {ℓ} : {V : Type ℓ} → Key → Data V → Data V
move_to_end key data_ = elim (get key data_) [
  | none ↦ data_
  | some entry ↦ remove key data_ ++ (key, entry) ∷ []
]

-- `while len(data) > maxsize: data.popitem(last=False)`.
unfoldable pub evict {ℓ} : {A : Type ℓ} → ℕ → List A → List A
evict maxsize [] = []
evict maxsize (entry ∷ entries) =
    let rest = evict maxsize entries in
    if ltb maxsize (length (entry ∷ entries)) then rest else entry ∷ entries

-- Up to the await: a hit that is younger than the time to live is moved to the end and returned.
unfoldable pub lookup {ℓ} : {V : Type ℓ} → ℕ → ℕ → Key → Data V → Option V × Data V
unfolding move_to_end
lookup ttl now key data_ = elim (get key data_) [
  | none ↦ (none, data_)
  | some hit ↦ if ltb now (hit.0 + ttl) then (some hit.1, move_to_end key data_) else (none, data_)
]

-- After the await, on the data as the other calls left them.
unfoldable pub store {ℓ} : {V : Type ℓ} → ℕ → ℕ → Key → V → Data V → Data V
unfolding move_to_end evict
store maxsize now key value data_ = evict maxsize (move_to_end key (put key (now, value) data_))

unfoldable pub invalidate {ℓ} : {V : Type ℓ} → Key → Data V → Data V
invalidate key data_ = remove key data_
