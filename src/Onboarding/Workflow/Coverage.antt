-- ===== src/Onboarding/Workflow/Coverage.antt =====
-- packages/onboarding/src/rca_onboarding/workflow.py: the results of the categories, and a run
-- when no source answers.
use industrial_rca.Prelude.{
  String, Bool, true, false, Option, Any, ◌≡◌, refl, ap, ◌∙◌, none, some, List, [], ◌∷◌, All,
  map-All, ◌⊎◌, inl, inr, Option-cases, arith, string_eq,
}
use industrial_rca.Prelude.Dict.{Dict, get, Every, get-Every}
use industrial_rca.Mar.Rows.{ConnectionRow}
use industrial_rca.Mar.Repository.{InMemoryRepository}
use industrial_rca.Onboarding.Rows.{HealthOutcome, ProjectionCounts, no_counts}
use industrial_rca.Onboarding.Projection.{ActivityDeps}
use industrial_rca.Onboarding.Runs.{Failure, Runs}
use industrial_rca.Onboarding.Health.{
  answer, failed, lost_check, Outside, OnboardingInput, resolve_connections, health_check,
  health_decision, health_by_id, category_results,
}
use industrial_rca.Onboarding.Health.Results.{health-Has, health-Every, Filled, results-Filled}
use industrial_rca.Onboarding.Workflow.{
  OnboardingResult, Progress, opening, closing, started_runs, ended_runs, result_of, is_wanted,
  project_connections, attempt, run, RunInfo, status_of_run, errors_of,
}

-- The attempt once its results are known.
attempt_fills :
    (out : Outside) (deps : ActivityDeps) (inp : OnboardingInput) (conns : List ConnectionRow)
    (repo : InMemoryRepository) (results : Dict String String)
    → lost_check out conns ≡ none
    → category_results (health_by_id out conns []) conns [] ≡ some results
    → attempt out deps inp conns repo ≡ (
      results,
      project_connections out deps inp.plant_id (health_by_id out conns []) conns no_counts repo,
    )
unfolding attempt
attempt_fills out deps inp conns repo results n e = rw (n, attempt) (rw (e, attempt) refl)

-- The failure that a gather raises is that of a check.
lost_check-Any :
    (out : Outside) (conns : List ConnectionRow) (e : Failure)
    → lost_check out conns ≡ some e
    → Any (λ c. out.check_fails c ≡ some e) conns
unfolding lost_check
lost_check-Any out [] e h = absurd (let b : ⊥ = cc in b)
lost_check-Any out (c ∷ conns) e h = elim (Option-cases (out.check_fails c)) [
  | inl n ↦ inr (lost_check-Any out conns e (rw (n, lost_check) at h))
  | inr (x, q) ↦ inl (q ∙ rw (q, lost_check) at h)
]

no_lost_check :
    (out : Outside) (conns : List ConnectionRow)
    → All (λ c. out.check_fails c ≡ none) conns
    → lost_check out conns ≡ none
unfolding lost_check
no_lost_check out [] h = refl
no_lost_check out (c ∷ conns) (n, h) = rw (n, lost_check) (no_lost_check out conns h)

-- A run whose first activity and reports do not fail, and one that returns.
run_through :
    (out : Outside) (deps : ActivityDeps) (info : RunInfo) (inp : OnboardingInput) (runs : Runs)
    (repo : InMemoryRepository)
    → out.resolve_fails ≡ none
    → out.start_fails ≡ none
    → out.end_fails ≡ none
    → let tried = attempt out deps inp (resolve_connections inp repo.connections) repo in
      run out deps info inp (runs, repo) ≡ (
        answer (result_of info tried),
        (ended_runs info (result_of info tried) (started_runs info inp runs), tried.1.repo),
      )
unfolding run opening closing
run_through out deps info inp runs repo a b c = simp (a, b, c, run, opening, closing)

returned_result :
    (out : Outside) (deps : ActivityDeps) (info : RunInfo) (inp : OnboardingInput) (runs : Runs)
    (repo : InMemoryRepository) (r : OnboardingResult)
    → (run out deps info inp (runs, repo)).0 ≡ answer r
    → r ≡ result_of info (attempt out deps inp (resolve_connections inp repo.connections) repo)
unfolding run opening closing
returned_result out deps info inp runs repo r h = elim (Option-cases out.resolve_fails) [
  | inr (e, q) ↦ let x : failed e ≡ answer r = rw (q, run) at h in absurd (let b : ⊥ = cc in b)
  | inl n ↦ at_start out.start_fails (rw (n, run) at h)
]
  where
    tried : Dict String String × Progress
    tried = attempt out deps inp (resolve_connections inp repo.connections) repo

    at_end :
        (o : Option (Failure × Bool))
        → (closing o info tried (started_runs info inp runs)).0 ≡ answer r
        → r ≡ result_of info tried
    at_end none e = cc
    at_end (some (x, w)) e = absurd (let b : ⊥ = cc in b)

    at_start :
        (o : Option (Failure × Bool))
        → (opening o out deps info inp (runs, repo)).0 ≡ answer r
        → r ≡ result_of info tried
    at_start none e = at_end out.end_fails e
    at_start (some (x, w)) e = absurd (let b : ⊥ = cc in b)

abbrev Good : String → Type 0
Good v = (v ≡ "ok") ⊎ (v ≡ "skipped:connection_unhealthy")

decision-Good : (b : Bool) → Good (health_decision b)
unfolding health_decision
decision-Good true = inl refl
decision-Good false = inr refl

everywhere {ℓ κ} : {A : Type ℓ} {P : A → Type κ} → ((x : A) → P x) → (xs : List A) → All P xs
everywhere f [] = tt
everywhere f (x ∷ xs) = (f x, everywhere f xs)

-- Every category has a result with what holds of every decision about a connection.
filled {ℓ} :
    (Q : String → Type ℓ) (out : Outside) (conns : List ConnectionRow)
    → All (λ c. Q (health_decision (health_check out c).ok)) conns
    → Filled Q (health_by_id out conns []) conns []
filled Q out conns h =
    results-Filled Q (health_by_id out conns [])
      (health-Every (λ o. Q (health_decision o.ok)) out conns [] h tt) conns []
      (health-Has out conns []) tt

found {ℓ} :
    (Q : String → Type ℓ) {health : Dict String HealthOutcome} {conns : List ConnectionRow}
    (f : Filled Q health conns [])
    → All (λ c. (v : String) × (get c.category f.results ≡ some v) × Q v) conns
found Q {conns = conns} f =
    map-All _ _ conns
      (λ c (v, at). (v, at, get-Every (λ k v. Q v) c.category v f.results at f.good)) f.named

-- Let any activity answer or fail for good. When a run returns a result, the category of each connection
-- that it resolves has a result, and that is "ok" or "skipped:connection_unhealthy"; or a health check of
-- one of them failed for good, and the run is "failed" with that failure as its one error and without a
-- result for any category.
pub run_covers :
    (out : Outside) (deps : ActivityDeps) (info : RunInfo) (inp : OnboardingInput) (runs : Runs)
    (repo : InMemoryRepository) (r : OnboardingResult)
    → (run out deps info inp (runs, repo)).0 ≡ answer r
    → All
        (λ c.
          (get c.category r.per_category_results ≡ some "ok")
          ⊎ (get c.category r.per_category_results ≡ some "skipped:connection_unhealthy"))
        (resolve_connections inp repo.connections)
      ⊎ ((e : Failure) × Any
            (λ c. out.check_fails c ≡ some e)
            (resolve_connections inp repo.connections)
          × (r.status ≡ "failed")
          × (r.errors ≡ e ∷ [])
          × (r.per_category_results ≡ []))
unfolding attempt
run_covers out deps info inp runs repo r h =
    let conns = resolve_connections inp repo.connections in
    let same = returned_result out deps info inp runs repo r h in
    elim (Option-cases (lost_check out conns)) [
      | inr (e, q) ↦
          let t : attempt out deps inp conns repo
              ≡ ([], record { counts = no_counts; failure = some e; repo = repo }) =
            rw (q, attempt) refl in
          let is : r
              ≡ result_of info ([], record { counts = no_counts; failure = some e; repo = repo }) =
            same ∙ ap (result_of info) t in
          inr (
            e,
            lost_check-Any out conns e q,
            ap (λ (x : OnboardingResult). x.status) is,
            ap (λ (x : OnboardingResult). x.errors) is,
            ap (λ (x : OnboardingResult). x.per_category_results) is,
          )
      | inl n ↦
          let f =
            filled Good out conns (everywhere (λ c. decision-Good (health_check out c).ok) conns) in
          let is : r.per_category_results ≡ f.results =
            ap (λ (x : OnboardingResult). x.per_category_results) same
            ∙ ap (λ t. t.0) (attempt_fills out deps inp conns repo f.results n f.returns) in
          inl (
            map-All _ _ conns
              (λ c (v, at, g). named c r.per_category_results v (ap (get c.category) is ∙ at) g)
              (found Good f))
    ]
  where
    named :
        (c : ConnectionRow) (d : Dict String String) (v : String)
        → get c.category d ≡ some v
        → Good v
        → (get c.category d ≡ some "ok") ⊎ (get c.category d ≡ some "skipped:connection_unhealthy")
    named c d v at (inl q) = inl (at ∙ ap some q)
    named c d v at (inr q) = inr (at ∙ ap some q)

abbrev Down : HealthOutcome → Type 0
Down o = o.ok ≡ false

none_wanted :
    (health : Dict String HealthOutcome) (c : ConnectionRow)
    → Every (λ k o. Down o) health
    → is_wanted health c ≡ false
unfolding is_wanted
none_wanted health c e = elim (Option-cases (get c.connection_id health)) [
  | inl n ↦ rw (n, is_wanted) (ground arith)
  | inr (o, at) ↦
      let down : o.ok ≡ false = get-Every (λ k o. Down o) c.connection_id o health at e in
      rw (at, is_wanted) (ground arith)
]

nothing_projected :
    (out : Outside) (deps : ActivityDeps) (plant_id : String) (health : Dict String HealthOutcome)
    (conns : List ConnectionRow) (counts : ProjectionCounts) (repo : InMemoryRepository)
    → Every (λ k o. Down o) health
    → project_connections out deps plant_id health conns counts repo
      ≡ record { counts = counts; failure = none; repo = repo }
unfolding project_connections
nothing_projected out deps plant_id health [] counts repo e = refl
nothing_projected out deps plant_id health (c ∷ conns) counts repo e =
    rw (none_wanted health c e, project_connections)
      (nothing_projected out deps plant_id health conns counts repo e)

-- When no connection that the run resolves is healthy, and the first activity, the reports and the health
-- checks do not fail for good, the run completes without an error, counts nothing and leaves the repository
-- as it was, and each of their categories is recorded as skipped.
pub run_outage :
    (out : Outside) (deps : ActivityDeps) (info : RunInfo) (inp : OnboardingInput) (runs : Runs)
    (repo : InMemoryRepository)
    → out.resolve_fails ≡ none
    → out.start_fails ≡ none
    → out.end_fails ≡ none
    → All (λ c. out.check_fails c ≡ none) (resolve_connections inp repo.connections)
    → All (λ c. (health_check out c).ok ≡ false) (resolve_connections inp repo.connections)
    → (result : OnboardingResult) × ((run out deps info inp (runs, repo)).0 ≡ answer result)
      × (result.status ≡ "completed")
      × (result.errors ≡ [])
      × (result.counts ≡ no_counts)
      × ((run out deps info inp (runs, repo)).1.1 ≡ repo)
      × All
          (λ c. get c.category result.per_category_results ≡ some "skipped:connection_unhealthy")
          (resolve_connections inp repo.connections)
unfolding health_decision
run_outage out deps info inp runs repo resolves starts ends checks down =
    let conns = resolve_connections inp repo.connections in
    let Q : String → Type 0 = λ v. v ≡ "skipped:connection_unhealthy" in
    let f = filled Q out conns (map-All _ _ conns (λ c d. ap health_decision d) down) in
    let q =
      attempt_fills out deps inp conns repo f.results (no_lost_check out conns checks) f.returns
      ∙ ap (λ p. (f.results, p))
          (nothing_projected out deps inp.plant_id (health_by_id out conns []) conns no_counts repo
            (health-Every Down out conns [] down tt)) in
    let through = run_through out deps info inp runs repo resolves starts ends in
    (
      result_of info (attempt out deps inp conns repo),
      ap (λ t. t.0) through,
      ap (λ t. status_of_run t.1.failure) q,
      ap (λ t. errors_of t.1.failure) q,
      ap (λ t. t.1.counts) q,
      ap (λ t. t.1.1) through ∙ ap (λ t. t.1.repo) q,
      map-All _ _ conns (λ c (v, at, g). ap (get c.category) (ap (λ t. t.0) q) ∙ at ∙ ap some g)
          (found Q f),
    )
