-- ===== src/Onboarding/Health/Results.antt =====
-- packages/onboarding/src/rca_onboarding/workflow.py: every connection of a run has a health outcome,
-- and every category a result.
use industrial_rca.Prelude.{String, ◌≡◌, subst, some, List, [], ◌∷◌, All, string_eq, refl, arith}
use industrial_rca.Prelude.Dict.{
  Has, put-Has, Dict, get, put, get-put_self, Every, put-Every, get-Every,
}
use industrial_rca.Mar.Rows.{ConnectionRow}
use industrial_rca.Onboarding.Rows.{HealthOutcome}
use industrial_rca.Onboarding.Health.{
  Outside, health_check, health_decision, health_by_id, category_results,
}

health_keeps :
    (out : Outside) (k : String) (conns : List ConnectionRow) (d : Dict String HealthOutcome)
    → Has k d
    → Has k (health_by_id out conns d)
unfolding health_by_id
health_keeps out k [] d h = h
health_keeps out k (c ∷ conns) d h =
    health_keeps out k conns _
      (put-Has (health_check out c).connection_id k (health_check out c) d h)

check_names :
    (out : Outside) (c : ConnectionRow) → (health_check out c).connection_id ≡ c.connection_id
unfolding health_check
check_names out c = ground arith

pub health-Has :
    (out : Outside) (conns : List ConnectionRow) (d : Dict String HealthOutcome)
    → All (λ c. Has c.connection_id (health_by_id out conns d)) conns
unfolding health_by_id
health-Has out [] d = tt
health-Has out (c ∷ conns) d =
    let o = health_check out c in
    (
      health_keeps out c.connection_id conns _ (
        o,
        subst (λ k. get k (put o.connection_id o d) ≡ some o) (check_names out c)
            (get-put_self o.connection_id o d),
      ),
      health-Has out conns _,
    )

pub health-Every {ℓ} :
    (P : HealthOutcome → Type ℓ) (out : Outside) (conns : List ConnectionRow)
    (d : Dict String HealthOutcome)
    → All (λ c. P (health_check out c)) conns
    → Every (λ k o. P o) d
    → Every (λ k o. P o) (health_by_id out conns d)
unfolding health_by_id
health-Every P out [] d h e = e
health-Every P out (c ∷ conns) d h e =
    health-Every P out conns _ h.1 (put-Every _ (health_check out c).connection_id _ d h.0 e)

-- The results that the loop over the connections leaves.
pub record Filled {ℓ} (Q : String → Type ℓ) (health : Dict String HealthOutcome)
    (conns : List ConnectionRow) (before : Dict String String) : Type ℓ where
  pub results : Dict String String
  pub returns : category_results health conns before ≡ some results
  pub good : Every (λ k v. Q v) results
  pub kept : (k : String) → Has k before → Has k results
  pub named : All (λ c. Has c.category results) conns

pub results-Filled {ℓ} :
    (Q : String → Type ℓ) (health : Dict String HealthOutcome)
    → Every (λ k o. Q (health_decision o.ok)) health
    → (conns : List ConnectionRow) (before : Dict String String)
    → All (λ c. Has c.connection_id health) conns
    → Every (λ k v. Q v) before
    → Filled Q health conns before
unfolding category_results
results-Filled Q health e [] before h g = record {
  results = before;
  returns = refl;
  good = g;
  kept = λ k q. q;
  named = tt;
}
results-Filled Q health e (c ∷ conns) before ((o, at), h) g =
    let v = health_decision o.ok in
    let rest =
      results-Filled Q health e conns (put c.category v before) h
        (put-Every _ c.category v before (get-Every _ c.connection_id o health at e) g) in
    record {
      results = rest.results;
      returns = rw (at, category_results) rest.returns;
      good = rest.good;
      kept = λ k q. rest.kept k (put-Has c.category k v before q);
      named = (rest.kept c.category (v, get-put_self c.category v before), rest.named);
    }
