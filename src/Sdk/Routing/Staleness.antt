-- ===== src/Sdk/Routing/Staleness.antt =====
-- packages/connector_sdk/src/rca_connector_sdk/routing.py: how old a registry router's answer may be.
use industrial_rca.Prelude.{
  subst, sym, ℕ, ◌+◌, ◌<◌, String, ◌≡◌, refl, ap, Option, none, some, List, lt→ltb, string_eq,
  pair_eq,
}
use industrial_rca.Prelude.Dict.{get, put, get-put_self}
use industrial_rca.Sdk.Routing.{
  ConnectionInfo, RouterCache, unexpired, fetch, static_active, registry_active,
}

-- A fetch that asked the provider stores what it answered.
fetch_asked :
    (ttl now later : ℕ) (answer : List ConnectionInfo) (plant category : String)
    (cache : RouterCache)
    → 0 < ttl
    → unexpired now (get (plant, category) cache) ≡ none
    → fetch ttl now later answer plant category cache
      ≡ (answer, put (plant, category) (later + ttl, answer) cache)
unfolding fetch
fetch_asked ttl now later answer plant category cache p e = rw (lt→ltb 0 ttl p, fetch) (rw e refl)

fetch_kept :
    (ttl now later : ℕ) (answer infos : List ConnectionInfo) (plant category : String)
    (cache : RouterCache)
    → 0 < ttl
    → unexpired now (get (plant, category) cache) ≡ some infos
    → fetch ttl now later answer plant category cache ≡ (infos, cache)
unfolding fetch
fetch_kept ttl now later answer infos plant category cache p e =
    rw (lt→ltb 0 ttl p, fetch) (rw e refl)

unexpired-put :
    (now expiry : ℕ) (infos : List ConnectionInfo) (plant category : String) (cache : RouterCache)
    → now < expiry
    → unexpired now (get (plant, category) (put (plant, category) (expiry, infos) cache))
      ≡ some infos
unfolding unexpired
unexpired-put now expiry infos plant category cache h =
    rw (get-put_self (plant, category) (expiry, infos) cache) (rw (lt→ltb now expiry h) refl)

-- With a time to live, after a request that found nothing fresh has asked the provider, every request
-- for the scope before that time is up is answered from the same list, whatever the provider would
-- say by then, and changes nothing.
pub registry_active_again :
    (ttl now later now' later' : ℕ) (answer answer' : List ConnectionInfo) (plant category : String)
    (id id' : Option String) (cache : RouterCache)
    → 0 < ttl
    → unexpired now (get (plant, category) cache) ≡ none
    → now' < later + ttl
    → registry_active ttl now' later' answer' plant category id'
        (registry_active ttl now later answer plant category id cache).1
      ≡ (
        static_active answer plant category id',
        (registry_active ttl now later answer plant category id cache).1,
      )
unfolding registry_active
registry_active_again ttl now later now' later' answer answer' plant category id id' cache p e h =
    let stored = put (plant, category) (later + ttl, answer) cache in
    let first : (registry_active ttl now later answer plant category id cache).1 ≡ stored =
      ap (λ z. z.1) (fetch_asked ttl now later answer plant category cache p e) in
    subst
      (λ c.
        registry_active ttl now' later' answer' plant category id' c
        ≡ (static_active answer plant category id', c))
      (sym first)
      (ap (λ z. (static_active z.0 plant category id', z.1))
        (fetch_kept ttl now' later' answer' answer plant category stored p
          (unexpired-put now' (later + ttl) answer plant category cache h)))
