-- ===== src/Sdk/Routing.antt =====
-- packages/connector_sdk/src/rca_connector_sdk/routing.py, and the provider that
-- packages/agents/src/rca_agents/host.py wires to the connections table.
pub mod Scope
pub mod Registry
pub mod Staleness
mod Tests
use industrial_rca.Prelude.{
  sort_texts, ℕ, ◌+◌, String, Bool, true, false, ◌&&◌, ◌||◌, not, Option, none, some, List, [], ◌∷◌,
  map, ltb, str_eq, keep_if, if◌then◌else◌, string_eq, pair_eq,
}
use industrial_rca.Prelude.Dict.{Dict, get, put}
use industrial_rca.Mar.Rows.{ConnectionRow, active}
use industrial_rca.Mar.Repository.Connections.{list_connections}

pub record ConnectionInfo : Type 0 where
  pub connection_id : String
  pub plant_id : String
  pub category : String
  pub connector_type : String
  pub base_url : String
  pub extra_config : String

-- The four ways to `NoActiveConnection`.
pub data NoActiveConnection : Type 0 where
  no_connection_with_id : String → NoActiveConnection
  not_for_scope : String → NoActiveConnection
  no_active_connection : NoActiveConnection
  ambiguous : List String → NoActiveConnection

pub data Routed : Type 0 where
  routed : ConnectionInfo → Routed
  refused : NoActiveConnection → Routed

-- `{c.connection_id: c for c in connections}` on top of what is there.
unfoldable pub by_id : Dict String ConnectionInfo → List ConnectionInfo → Dict String ConnectionInfo
by_id d [] = d
by_id d (c ∷ conns) = by_id (put c.connection_id c d) conns

unfoldable pub serves : String → String → ConnectionInfo → Bool
serves plant_id category c = str_eq c.plant_id plant_id && str_eq c.category category

abbrev id_of : ConnectionInfo → String
id_of c = c.connection_id

-- The matches are none, one or several.
unfoldable pub single_match : List ConnectionInfo → Routed
single_match [] = refused no_active_connection
single_match (c ∷ []) = routed c
single_match (c ∷ c' ∷ others) = refused (ambiguous (sort_texts (map id_of (c ∷ c' ∷ others))))

-- `StaticConnectionRouter(connections).active`.
unfoldable pub static_active : List ConnectionInfo → String → String → Option String → Routed
unfolding serves single_match
static_active conns plant_id category (some connection_id) =
    elim (get connection_id (by_id [] conns)) [
      | none ↦ refused (no_connection_with_id connection_id)
      | some conn ↦
          if not (str_eq conn.plant_id plant_id) || not (str_eq conn.category category)
          then refused (not_for_scope connection_id)
          else routed conn
    ]
static_active conns plant_id category none = single_match (keep_if (serves plant_id category) conns)

-- `r.extra_config or {}` on the text of the object.
unfoldable pub info_of : ConnectionRow → ConnectionInfo
info_of r = record {
  connection_id = r.connection_id;
  plant_id = r.plant_id;
  category = r.category;
  connector_type = r.connector_type;
  base_url = r.base_url;
  extra_config = elim r.extra_config [ none ↦ "{}" | some e ↦ e ];
}

-- `provider` of the host: the registry's active rows, or, when the registry cannot be reached, the
-- development connection of the scope.
unfoldable pub provider :
    Dict (String × String) ConnectionInfo
    → Option (Dict String ConnectionRow)
    → String
    → String
    → List ConnectionInfo
unfolding info_of
provider dev (some d) plant_id category =
    map info_of (list_connections (some plant_id) (some category) (some active) d)
provider dev none plant_id category = elim (get (plant_id, category) dev) [
  | none ↦ []
  | some c ↦ c ∷ []
]

-- `RegistryConnectionRouter._cache`.
abbrev pub RouterCache : Type 0
RouterCache = Dict (String × String) (ℕ × List ConnectionInfo)

-- The cached list of a scope, while it is not stale.
unfoldable pub unexpired : ℕ → Option (ℕ × List ConnectionInfo) → Option (List ConnectionInfo)
unexpired now none = none
unexpired now (some (expiry, infos)) = if ltb now expiry then some infos else none

-- `_fetch`: `now` is the clock before the provider is asked and `later` the clock after it.
unfoldable pub fetch :
    ℕ
    → ℕ
    → ℕ
    → List ConnectionInfo
    → String
    → String
    → RouterCache
    → List ConnectionInfo × RouterCache
unfolding unexpired
fetch ttl now later answer plant_id category cache =
    if ltb 0 ttl
    then (elim (unexpired now (get (plant_id, category) cache)) [
      | some infos ↦ (infos, cache)
      | none ↦ (answer, put (plant_id, category) (later + ttl, answer) cache)
    ])
    else (answer, cache)

-- `RegistryConnectionRouter.active`, with what the provider answers if it is asked.
unfoldable pub registry_active :
    ℕ
    → ℕ
    → ℕ
    → List ConnectionInfo
    → String
    → String
    → Option String
    → RouterCache
    → Routed × RouterCache
unfolding fetch static_active
registry_active ttl now later answer plant_id category connection_id cache =
    let (infos, after) = fetch ttl now later answer plant_id category cache in
    (static_active infos plant_id category connection_id, after)
