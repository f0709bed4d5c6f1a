-- ===== src/Mar/Cache/Tests.antt =====
-- Runs of the cache with room for two entries that live for ten seconds.
use industrial_rca.Prelude.{String, ◌≡◌, refl, List, [], ◌∷◌, string_eq, pair_eq}
use industrial_rca.Prelude.Dict.{get, put, remove}
use industrial_rca.Mar.Cache.{Key, Data, evict, store}
use industrial_rca.Mar.Cache.Runs.{Step, look, loaded, dropped}

abbrev flow : Key
flow = ("t", ("pi", "P-101.FLOW"))

abbrev temp : Key
temp = ("t", ("pi", "P-101.TEMP"))

abbrev level : Key
level = ("t", ("pi", "T-1.LEVEL"))

abbrev full : Data String
full = (flow, (1, "pump")) ∷ (temp, (2, "pump")) ∷ []

-- The least recently used entry makes room.
store_run : store 2 3 level "tank" full ≡ (temp, (2, "pump")) ∷ (level, (3, "tank")) ∷ []
unfolding store evict put get remove
store_run = refl

abbrev calls : List (Step String)
calls = look 4 flow ∷ loaded 5 level "tank" ∷ dropped flow ∷ []
