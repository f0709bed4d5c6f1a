-- ===== src/Sdk/Routing/Registry.antt =====
-- packages/connector_sdk/src/rca_connector_sdk/routing.py over the connections table, as
-- packages/agents/src/rca_agents/host.py wires it.
use industrial_rca.Prelude.{
  sym, subst, ap, beq_cases, some_unique, eq_refl, inl, inr, String, Bool, ◌≡◌, refl, true, false,
  none, some, [], ◌∷◌, arith, eq_iff, str_eq, Bool-cases, keep_if, All, string_eq, keep_if-none,
  eq_refl, beq_cases, inl, inr, ◌∙◌,
}
use industrial_rca.Prelude.Dict.{Dict, get, values, Unique, get-put_self, get-head, get-tail}
use industrial_rca.Mar.Rows.{ConnectionRow, active, status_eq→≡, status_eq_refl}
use industrial_rca.Mar.Repository.Connections.{list_connections, listed}
use industrial_rca.Mar.Repository.Connections.Table.{IsTable}
use industrial_rca.Connections.Router.Monad.{Api, ok}
use industrial_rca.Connections.Router.Requests.{Env}
use industrial_rca.Connections.Router.Handlers.{activate_connection}
use industrial_rca.Connections.Router.Requested.{activate, serve, serve_all}
use industrial_rca.Connections.Router.Guarantees.{serve_all-IsTable}
use industrial_rca.Connections.Router.Gate.{activate_gate}
use industrial_rca.Sdk.Routing.{
  ConnectionInfo, routed, serves, single_match, static_active, info_of, provider,
}

-- The rows of a dictionary that holds each key once satisfy what holds at every key.
values-All {ℓ} :
    {V : Type ℓ} (p : V → Bool) (d : Dict String V)
    → Unique d
    → ((k : String) (v : V) → get k d ≡ some v → p v ≡ false)
    → All (λ v. p v ≡ false) (values d)
values-All p [] u h = tt
values-All p ((j, v) ∷ d) u h =
    (h j v (get-head j v d), values-All p d u.1 (λ k w e. h k w (get-tail j k v w d u.0 e)))

-- The only row of a dictionary that passes a test is what the comprehension keeps.
keep_if-only {ℓ} :
    {V : Type ℓ} (p : V → Bool) (k : String) (r : V) (d : Dict String V)
    → Unique d
    → get k d ≡ some r
    → p r ≡ true
    → ((j : String) (s : V) → get j d ≡ some s → p s ≡ true → j ≡ k)
    → keep_if p (values d) ≡ r ∷ []
unfolding keep_if
keep_if-only p k r [] u e y only = absurd (nothing e)
  where
    nothing : get k [] ≡ some r → ⊥
    nothing h = unfold get in cc
keep_if-only {V = V} p k r ((j, v) ∷ d) u e y only = elim (beq_cases j k) [
  | inl q ↦
      let vr : v ≡ r =
        some_unique (get-head j v d) (subst (λ i. get i ((j, v) ∷ d) ≡ some r) (sym q) e) in
      let pv : p v ≡ true = subst (λ z. p z ≡ true) (sym vr) y in
      rw (pv, keep_if)
        (ap (◌∷◌ v) (keep_if-none p (values d) (values-All p d u.1 (others q)))
          ∙ ap (λ z. z ∷ []) vr)
  | inr (n, b) ↦ elim (Bool-cases (p v)) [
    | inl z ↦ absurd (n (only j v (get-head j v d) z))
    | inr z ↦
        rw (z, keep_if)
          (keep_if-only p k r d u.1 (get-behind b) y
            (λ i s f w. only i s (get-tail j i v s d u.0 f) w))
  ]
]
  where
    missing : {s : V} → get j d ≡ some s → ⊥
    missing f = let n = u.0 in cc

    others : j ≡ k → (i : String) (s : V) → get i d ≡ some s → p s ≡ false
    others q i s f = elim (Bool-cases (p s)) [
      | inr z ↦ z
      | inl z ↦
          let same : i ≡ j = only i s (get-tail j i v s d u.0 f) z ∙ sym q in
          absurd (missing (subst (λ x. get x d ≡ some s) same f))
    ]

    get-behind : str_eq j k ≡ false → get k d ≡ some r
    get-behind b = unfold get in rw b at e

listed-parts :
    (plant category : String) (r : ConnectionRow)
    → listed (some plant) (some category) (some active) r ≡ true
    → (r.plant_id ≡ plant) × (r.category ≡ category) × (r.status ≡ active)
listed-parts plant category r h = (
  ground (arith, eq_iff r.plant_id plant),
  ground (arith, eq_iff r.category category),
  status_eq→≡ r.status active (ground arith),
)

serves-info : (r : ConnectionRow) → serves r.plant_id r.category (info_of r) ≡ true
unfolding serves info_of
serves-info r = rw (eq_refl r.plant_id, eq_refl r.category) refl

keep_if-single {ℓ} : {V : Type ℓ} (p : V → Bool) (v : V) → p v ≡ true → keep_if p (v ∷ []) ≡ v ∷ []
unfolding keep_if
keep_if-single p v y = rw (y, keep_if) refl

single-info :
    (r : ConnectionRow)
    → single_match (keep_if (serves r.plant_id r.category) (info_of r ∷ [])) ≡ routed (info_of r)
unfolding single_match
single-info r =
    ap single_match (keep_if-single (serves r.plant_id r.category) (info_of r) (serves-info r))

-- In a well-formed registry a router that is asked for the plant and the category of an active
-- connection without an id answers that connection, so it never finds an ambiguity, whatever the
-- development connections are.
pub routes_to_active :
    (dev : Dict (String × String) ConnectionInfo) (d : Dict String ConnectionRow) (k : String)
    (r : ConnectionRow)
    → IsTable d
    → get k d ≡ some r
    → r.status ≡ active
    → static_active (provider dev (some d) r.plant_id r.category) r.plant_id r.category none
      ≡ routed (info_of r)
unfolding static_active provider list_connections
routes_to_active dev d k r t e a =
    rw
      (keep_if-only (listed (some r.plant_id) (some r.category) (some active)) k r d t.unique e
        (rw (a, eq_refl r.plant_id, eq_refl r.category, status_eq_refl active) refl)
        (λ j s f w.
          let (p, c, b) = listed-parts r.plant_id r.category s w in
          t.one_active j k s r f e b a p c))
      (single-info r)

-- After an activation in a well-formed registry has answered with a row, a router that is asked
-- for the row's plant and category without an id, and whose provider reads that registry, answers
-- the activated connection.
pub activated-routed :
    (env : Env) (dev : Dict (String × String) ConnectionInfo) (id : String) (s u : Api)
    (row : ConnectionRow)
    → IsTable s.connections
    → activate_connection env id s ≡ (ok row, u)
    → static_active
        (provider dev (some u.connections) row.plant_id row.category)
        row.plant_id
        row.category
        none
      ≡ routed (info_of row)
unfolding serve_all serve
activated-routed env dev id s u row t h =
    let (old, e, p, z, free, q, o) = activate_gate env id s u row t h in
    let t' : IsTable u.connections =
      subst (λ x. IsTable x.1.connections) h (serve_all-IsTable ((env, activate id) ∷ []) s t) in
    routes_to_active dev u.connections id row t' (rw o (get-put_self id row s.connections))
      (ap (λ x. x.status) q)
