-- ===== src/Onboarding/Tests.antt =====
-- The theorems of the onboarding at concrete inputs.
use industrial_rca.Prelude.{
  ℕ, String, true, false, ◌≡◌, ◌≢◌, refl, none, some, List, [], ◌∷◌, length, All, Any, keep_if, not,
  Any, mem_text, ◌⊎◌, string_eq, pair_eq, str_eq, eq_iff, sym, ◌∙◌,
}
use industrial_rca.Prelude.Dict.{get, put}
use industrial_rca.Mar.Rows.{AssetDescriptor, ConnectionRow, active, status_eq}
use industrial_rca.Mar.Repository.Connections.{list_connections}
use industrial_rca.Mar.Repository.{InMemoryRepository}
use industrial_rca.Mar.Repository.Assets.{status_of, upsert_asset, find_asset_by_canonical_id}
use industrial_rca.Mar.Repository.Aliases.{find_active_alias, about, stored_alias}
use industrial_rca.Mar.Resolution.Lookups.{write_alias}
use industrial_rca.Mar.Repository.Pending.{list_active_aliases_for_connection}
use industrial_rca.Onboarding.Rows.{DiscoveredAsset, DiscoveredHierarchyNode, site, area, no_counts}
use industrial_rca.Onboarding.Projection.{
  ActivityDeps, project_to_mar, project_asset, resolution_eq,
}
use industrial_rca.Onboarding.Projection.Idempotent.{project_again}
use industrial_rca.Onboarding.Reconcile.{reconcile_decommission}
use industrial_rca.Onboarding.Reconcile.Outcome.{reconcile_decommissions}
use industrial_rca.Onboarding.Graph.{KgNode, hierarchy_payload}
use industrial_rca.Onboarding.Graph.Edges.{Pairs, IsNodeOf, hierarchy_payload_closed}
use industrial_rca.Onboarding.Runs.{Failure, get_run}
use industrial_rca.Onboarding.Health.{
  Outside, OnboardingInput, answer, resolve_connections, health_check, starts_with,
}
use industrial_rca.Onboarding.Workflow.{
  OnboardingResult, attempt, run, opening, closing, result_of, RunInfo,
}
use industrial_rca.Onboarding.Workflow.Outcomes.{IsReported, run_reports}
use industrial_rca.Onboarding.Workflow.Coverage.{run_covers, run_outage}

differ : (s t : String) → str_eq s t ≡ false → s ≢ t
differ s t f h = let c : false ≡ true = sym f ∙ (eq_iff s t).1 h in cc

abbrev deps : ActivityDeps
deps = record {
  threshold = 7000;
  tenant_id = "t";
  uuid5 = λ c. c;
  attributes_text = λ d. "";
  draw = λ n. record { valid_from = n; resolved_at = n; alias_id = "a1" };
}

abbrev discovered : String → String → ℕ → DiscoveredAsset
discovered vendor canonical confidence = record {
  vendor_id = vendor;
  vendor_path = "\\AF\\P1";
  plant_id = "p1";
  unit_slug = "u1";
  name = vendor;
  proposed_canonical_id = canonical;
  iso14224_class = some "rotating.pump";
  iso14224_class_confidence = confidence;
  iso14224_class_method = "pump-tag";
  attributes = ("Criticality", "High") ∷ [];
  parent_unit_vendor_id = "u";
  parent_area_vendor_id = "a";
  site_vendor_id = "s";
}

abbrev crawled : List DiscoveredAsset
crawled = discovered "P-101" "p1.pump.p-101" 9000 ∷ discovered "P-102" "p1.pump.p-102" 6000 ∷ []

abbrev no_repo : InMemoryRepository
no_repo = record {
  assets = [];
  aliases = [];
  unresolved = [];
  connections = [];
  asset_status = [];
  write_count = 0;
}

first_run :
    (project_to_mar deps "p1" "c1" crawled no_repo).0
    ≡ record no_counts { assets_new = 2; bindings_pending_review = 1 }
unfolding project_to_mar project_asset find_asset_by_canonical_id find_active_alias write_alias
    upsert_asset put about stored_alias resolution_eq
first_run = refl

project_again_example :
    let first = (project_to_mar deps "p1" "c1" crawled no_repo).1 in
    project_to_mar
      (record deps { draw = λ n. record { valid_from = 90; resolved_at = 91; alias_id = "a2" } })
      "p1"
      "c1"
      crawled
      first
    ≡ (no_counts, first)
project_again_example =
    project_again deps (λ n. record { valid_from = 90; resolved_at = 91; alias_id = "a2" }) "p1"
      "c1" crawled no_repo (λ b c h. h) (record { unique = tt; keyed = tt; minted = tt })
      ((differ "P-102" "P-101" refl, differ "p1.pump.p-102" "p1.pump.p-101" refl, tt), (tt, tt))

abbrev filled : InMemoryRepository
filled = (project_to_mar deps "p1" "c1" crawled no_repo).1

reconcile_decommissions_example :
    let active = list_active_aliases_for_connection "t" "c1" filled.aliases in
    let orphans = keep_if (λ a. not (mem_text a.external_id ("P-101" ∷ []))) active in
    (after : InMemoryRepository) × (reconcile_decommission (λ n. n) "t" "c1" ("P-101" ∷ []) filled
      ≡ some (length orphans, after))
    × All
        (λ a.
          (x : AssetDescriptor)
          → get ("t", a.asset_id) filled.assets ≡ some x
          → status_of "t" a.asset_id after ≡ "decommissioned")
        orphans
    × ((i : String)
        → All (λ a. a.asset_id ≢ i) orphans
        → (get ("t", i) after.assets ≡ get ("t", i) filled.assets)
          × (status_of "t" i after ≡ status_of "t" i filled))
reconcile_decommissions_example = reconcile_decommissions (λ n. n) "t" "c1" ("P-101" ∷ []) filled

abbrev plant : ConnectionRow
plant = record {
  connection_id = "c1";
  plant_id = "p1";
  category = "hierarchy";
  connector_type = "pi_af";
  display_name = "AF";
  base_url = "http://af";
  auth_config = record { type_name = "none"; secret_ref = none };
  status = active;
  extra_config = none;
  last_tested_at = none;
  last_test_result = none;
}

abbrev world : Outside
world = record {
  http_get = λ b p. answer 200;
  database_name = λ c. answer "db";
  crawl = λ b d p. answer (record { assets = crawled; hierarchy_nodes = [] });
  upsert_hierarchy_nodes = λ ns. answer (length ns);
  clock = λ n. n;
  decimal = λ n. "503";
  resolve_fails = none;
  start_fails = none;
  check_fails = λ c. none;
  project_fails = λ c. none;
  reconcile_fails = λ c. none;
  end_fails = none;
}

abbrev info : RunInfo
info = record { run_id = "r1"; workflow_id = "w1"; started_at = 5; completed_at = 9 }

abbrev inp : OnboardingInput
inp = record { plant_id = "p1"; connection_ids = none }

abbrev site_repo : InMemoryRepository
site_repo = record no_repo { connections = ("c1", plant) ∷ [] }

run_reports_example :
    IsReported world info inp
      (run world deps info inp ([], site_repo)).0
      (get_run "r1" (run world deps info inp ([], site_repo)).1.0)
    × ((id : String)
        → "r1" ≢ id
        → get_run id (run world deps info inp ([], site_repo)).1.0 ≡ get_run id [])
unfolding get_run get
run_reports_example = run_reports world deps info inp [] site_repo refl

abbrev world_result : OnboardingResult
world_result =
    result_of info
      (attempt world deps inp (resolve_connections inp site_repo.connections) site_repo)

world_returns : (run world deps info inp ([], site_repo)).0 ≡ answer world_result
unfolding run opening closing
world_returns = refl

run_covers_example :
    All
      (λ c.
        (get c.category world_result.per_category_results ≡ some "ok")
        ⊎ (get c.category world_result.per_category_results ≡ some "skipped:connection_unhealthy"))
      (resolve_connections inp site_repo.connections)
    ⊎ ((e : Failure) × Any
          (λ c. world.check_fails c ≡ some e)
          (resolve_connections inp site_repo.connections)
        × (world_result.status ≡ "failed")
        × (world_result.errors ≡ e ∷ [])
        × (world_result.per_category_results ≡ []))
run_covers_example = run_covers world deps info inp [] site_repo world_result world_returns

abbrev down : Outside
down = record world { http_get = λ b p. answer 503 }

run_outage_example :
    (result : OnboardingResult) × ((run down deps info inp ([], site_repo)).0 ≡ answer result)
    × (result.status ≡ "completed")
    × (result.errors ≡ [])
    × (result.counts ≡ no_counts)
    × ((run down deps info inp ([], site_repo)).1.1 ≡ site_repo)
    × All
        (λ c. get c.category result.per_category_results ≡ some "skipped:connection_unhealthy")
        (resolve_connections inp site_repo.connections)
unfolding resolve_connections list_connections keep_if status_eq health_check starts_with
run_outage_example = run_outage down deps info inp [] site_repo refl refl refl (refl, tt) (refl, tt)

abbrev crawled_nodes : List DiscoveredHierarchyNode
crawled_nodes =
    record {
      vendor_id = "s";
      vendor_path = "\\AF\\P1";
      kind = site;
      name = "Plant";
      plant_id = "p1";
      parent_vendor_id = none;
    }
    ∷ record {
      vendor_id = "a";
      vendor_path = "\\AF\\P1\\A";
      kind = area;
      name = "Area A";
      plant_id = "p1";
      parent_vendor_id = some "s";
    }
    ∷ []

hierarchy_payload_closed_example :
    (payload : List KgNode) × (hierarchy_payload crawled_nodes ≡ some payload)
    × (length payload ≡ 2)
    × Pairs (IsNodeOf crawled_nodes) crawled_nodes payload
    × All (λ m. (p : String) → m.parent_id ≡ some p → Any (λ n. n.id ≡ p) payload) payload
hierarchy_payload_closed_example = hierarchy_payload_closed crawled_nodes
