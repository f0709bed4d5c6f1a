-- ===== src/Agents/Gather/Assembly.antt =====
-- packages/agents/src/rca_agents/gather_graph.py, `_assemble`: what the package takes over from the steps,
-- and when a leg asks about the window.
use industrial_rca.Prelude.{
  ℕ, ◌≡◌, refl, String, Bool, true, false, List, [], ◌∷◌, map, take, length,
}
use industrial_rca.Agents.Contracts.{Raising, returned, raised, ◌>>=◌, InvestigationPlan, or_else}
use industrial_rca.Agents.Gather.{GatherContext, AssetContext, Tag}
use industrial_rca.Agents.Gather.Steps.{Executed}
use industrial_rca.Agents.Gather.Package.{
  Assembled, package_of, assemble, context_or, class_of, link_modes, materialize, with_class,
  with_context, modes_or, code_of, located,
}
use industrial_rca.Agents.Gather.Legs.{asks_scope}

-- An assembled package has the steps' notes.
pub data Packs (ctx : GatherContext) (plan : InvestigationPlan) (e : Executed) (lookback : ℕ)
    : Raising Assembled → Type 0 where
  packs_raises : (x : String) → Packs ctx plan e lookback (raised x)
  packs :
      (a : Assembled)
      → a.pkg.plan_execution_notes ≡ e.notes
      → a.pkg.lookback_hours ≡ lookback
      → a.pkg.canonical_id ≡ plan.asset_canonical_id
      → a.pkg.tags ≡ e.raw.tags
      → Packs ctx plan e lookback (returned a)

module _ (ctx : GatherContext) (plan : InvestigationPlan) (e : Executed) (lookback : ℕ) where
  bind-Packs {ℓ} :
      {A : Type ℓ} (m : Raising A) (f : A → Raising Assembled)
      → ((a : A) → Packs ctx plan e lookback (f a))
      → Packs ctx plan e lookback (m >>= f)
  bind-Packs (returned a) f k = k a
  bind-Packs (raised x) f k = packs_raises x

  materialize-Packs :
      (context : AssetContext) (c : String) (modes : List (String × List String))
      → Packs ctx plan e lookback (materialize ctx plan e lookback context c modes)
  unfolding materialize package_of
  materialize-Packs context c modes =
      let applicable = modes_or modes context.applicable_failure_modes in
      let name = or_else context.asset_name (ctx.upper (ctx.last_part plan.asset_canonical_id)) in
      let made : Raising Assembled = returned (package_of ctx plan e lookback name c applicable) in
      let link =
        link_modes ctx plan.asset_canonical_id (map (λ (m : String × List String). m.0) applicable)
          (map code_of (take 3 plan.candidate_failure_modes)) in
      let place = located (ctx.is_canonical plan.asset_canonical_id) in
      bind-Packs (ctx.toolbox.upsert_asset plan.asset_canonical_id name c)
        (λ u. link >>= λ l. place >>= λ p. made)
        (λ u.
          bind-Packs link (λ l. place >>= λ p. made)
            (λ l. bind-Packs place (λ p. made) (λ p. packs _ refl refl refl refl)))

  pub assemble-Packs : Packs ctx plan e lookback (assemble ctx plan e lookback)
  unfolding assemble with_context with_class
  assemble-Packs =
      bind-Packs
        (context_or e.raw.context
          (ctx.toolbox.get_asset_context (length plan.steps) plan.asset_canonical_id))
        (λ context. with_context ctx plan e lookback context)
        (λ context.
          bind-Packs (class_of context.iso14224_class)
            (λ c. with_class ctx plan e lookback context c)
            (λ c.
              bind-Packs (ctx.toolbox.failure_modes_for_class c)
                (λ modes. materialize ctx plan e lookback context c modes)
                (λ modes. materialize-Packs context c modes)))

pub asks_scope-unextended : (tags : List Tag) (b : Bool) → asks_scope tags b ≡ true → b ≡ false
unfolding asks_scope
asks_scope-unextended [] true h = absurd (let x : ⊥ = cc in x)
asks_scope-unextended [] false h = refl
asks_scope-unextended (t ∷ tags) b h = absurd (let x : ⊥ = cc in x)

pub asks_scope-extended : (tags : List Tag) → asks_scope tags true ≡ false
unfolding asks_scope
asks_scope-extended [] = refl
asks_scope-extended (t ∷ tags) = refl
