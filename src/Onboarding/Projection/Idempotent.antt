-- ===== src/Onboarding/Projection/Idempotent.antt =====
-- packages/onboarding/src/rca_onboarding/activities.py: `_project_to_mar_impl` is idempotent, as its
-- docstring says: a second crawl of an unchanged source writes nothing and counts nothing.
use industrial_rca.Prelude.{ℕ, String, ◌≡◌, ◌≢◌, refl, List, [], ◌∷◌}
use industrial_rca.Mar.Repository.{InMemoryRepository}
use industrial_rca.Onboarding.Rows.{DiscoveredAsset, ProjectionCounts, no_counts}
use industrial_rca.Onboarding.Projection.{
  ActivityDeps, Draw, project_asset, project_assets, project_to_mar, descriptor_for, status_for,
}
use industrial_rca.Onboarding.Projection.Settled.{Settled, project-Settled}
use industrial_rca.Onboarding.Projection.Apart.{
  IsRegistry, project-IsRegistry, project_settles, project_keeps,
}

-- Assets with another id in the source and another canonical id.
abbrev pub IsApart : DiscoveredAsset → List DiscoveredAsset → Type 0
IsApart x [] = Unit
IsApart x (y ∷ assets) =
    (y.vendor_id ≢ x.vendor_id)
    × (y.proposed_canonical_id ≢ x.proposed_canonical_id)
    × IsApart x assets

abbrev pub IsDistinct : List DiscoveredAsset → Type 0
IsDistinct [] = Unit
IsDistinct (x ∷ assets) = IsApart x assets × IsDistinct assets

module _ (plant_id connection_id : String) where
  abbrev AllSettled : ActivityDeps → List DiscoveredAsset → InMemoryRepository → Type 0
  AllSettled deps [] repo = Unit
  AllSettled deps (x ∷ assets) repo =
      Settled deps plant_id connection_id x repo × AllSettled deps assets repo

  -- Nothing that is settled depends on the draws.
  redrawn :
      (deps : ActivityDeps) (later : ℕ → Draw) (assets : List DiscoveredAsset)
      (repo : InMemoryRepository)
      → AllSettled deps assets repo
      → AllSettled (record deps { draw = later }) assets repo
  unfolding descriptor_for status_for
  redrawn deps later [] repo s = tt
  redrawn deps later (x ∷ assets) repo (s, h) = (
    record {
      registered = s.registered;
      binding = s.binding;
      is_registered = s.is_registered;
      is_bound = s.is_bound;
      same_asset = s.same_asset;
      same_binding = s.same_binding;
    },
    redrawn deps later assets repo h,
  )

  assets-AllSettled :
      (deps : ActivityDeps) (assets : List DiscoveredAsset) (counts : ProjectionCounts)
      (repo : InMemoryRepository)
      → AllSettled deps assets repo
      → project_assets deps plant_id connection_id assets (counts, repo) ≡ (counts, repo)
  unfolding project_assets
  assets-AllSettled deps [] counts repo s = refl
  assets-AllSettled deps (x ∷ assets) counts repo (s, h) =
      rw (project-Settled deps plant_id connection_id x counts repo s)
        (assets-AllSettled deps assets counts repo h)

  module _ (deps : ActivityDeps)
      (injective : (b c : String) → deps.uuid5 b ≡ deps.uuid5 c → b ≡ c) where
    assets_keep :
        (x : DiscoveredAsset) (assets : List DiscoveredAsset) (counts : ProjectionCounts)
        (repo : InMemoryRepository)
        → IsRegistry deps repo.assets
        → IsApart x assets
        → Settled deps plant_id connection_id x repo
        → Settled deps plant_id connection_id x
            (project_assets deps plant_id connection_id assets (counts, repo)).1
    unfolding project_assets
    assets_keep x [] counts repo r a s = s
    assets_keep x (y ∷ assets) counts repo r (v, c, a) s =
        let next = project_asset deps plant_id connection_id y (counts, repo) in
        assets_keep x assets next.0 next.1
          (project-IsRegistry deps injective plant_id connection_id y counts repo r) a
          (project_keeps deps injective plant_id connection_id x y counts repo r v c s)

    assets_settle :
        (assets : List DiscoveredAsset) (counts : ProjectionCounts) (repo : InMemoryRepository)
        → IsRegistry deps repo.assets
        → IsDistinct assets
        → AllSettled deps assets
            (project_assets deps plant_id connection_id assets (counts, repo)).1
    unfolding project_assets
    assets_settle [] counts repo r d = tt
    assets_settle (x ∷ assets) counts repo r (a, d) =
        let next = project_asset deps plant_id connection_id x (counts, repo) in
        let q = project-IsRegistry deps injective plant_id connection_id x counts repo r in
        (
          assets_keep x assets next.0 next.1 q a
              (project_settles deps injective plant_id connection_id x counts repo r),
          assets_settle assets next.0 next.1 q d,
        )

-- Let the ids that `uuid5` mints be injective, let each descriptor of the registry stand once, under
-- its own tenant and id, and let no descriptor have an id that is minted from another canonical id.
-- When the crawled assets have pairwise distinct ids in the source and distinct canonical ids, a
-- second projection of them, whatever it draws from the clock and for UUIDs, changes nothing in the
-- repository that the first one leaves, and all its counts are zero.
pub project_again :
    (deps : ActivityDeps) (later : ℕ → Draw) (plant_id connection_id : String)
    (assets : List DiscoveredAsset) (repo : InMemoryRepository)
    → ((b c : String) → deps.uuid5 b ≡ deps.uuid5 c → b ≡ c)
    → IsRegistry deps repo.assets
    → IsDistinct assets
    → let first = (project_to_mar deps plant_id connection_id assets repo).1 in
      project_to_mar (record deps { draw = later }) plant_id connection_id assets first
      ≡ (no_counts, first)
unfolding project_to_mar
project_again deps later plant_id connection_id assets repo injective r d =
    let first = project_to_mar deps plant_id connection_id assets repo in
    assets-AllSettled plant_id connection_id (record deps { draw = later }) assets no_counts first.1
      (redrawn plant_id connection_id deps later assets first.1
        (assets_settle plant_id connection_id deps injective assets no_counts repo r d))
