-- ===== src/Agents/Gather/Legs.antt =====
-- packages/agents/src/rca_agents/gather_graph.py, `run_leg`: the steps, then the one question that a leg
-- may ask, or the package.
use industrial_rca.Prelude.{
  ℕ, ◌*◌, String, Bool, true, false, not, Option, none, some, List, [], ◌∷◌,
}
use industrial_rca.Agents.Contracts.{
  Raising, returned, ◌>>=◌, no_usage, InvestigationPlan, HitlResponse,
}
use industrial_rca.Agents.Bridge.{LegResult}
use industrial_rca.Agents.Gather.{Tag, GatherContext, Raw, EvidencePackage}
use industrial_rca.Agents.Gather.Steps.{no_rows, execute_steps}
use industrial_rca.Agents.Gather.Package.{assemble}

pub record GatherState : Type 0 where
  pub plan : InvestigationPlan
  pub awaiting_scope : Bool
  pub lookback_hours : ℕ
  pub window_extended : Bool
  pub raw : Raw
  pub evidence_package_id : Option String

-- The answer to the question doubles the window.
unfoldable pub extended : GatherState → Option HitlResponse → GatherState
extended st none = st
extended st (some hitl) = elim st.awaiting_scope [
  | true ↦ record st {
    lookback_hours = st.lookback_hours * 2;
    awaiting_scope = false;
    window_extended = true;
  }
  | false ↦ st
]

-- `if (not raw["tags"]) and not window_extended`.
unfoldable pub asks_scope : List Tag → Bool → Bool
asks_scope [] extended = not extended
asks_scope (t ∷ tags) extended = false

-- The leg after the answer: the steps, then a question or the package.
unfoldable pub gathered :
    GatherContext → GatherState → Raising (LegResult GatherState EvidencePackage)
unfolding asks_scope execute_steps assemble
gathered ctx st =
    let e =
      execute_steps ctx st.plan.asset_canonical_id st.lookback_hours 0 st.plan.steps
        (record { raw = no_rows; notes = []; provenance = [] }) in
    let stored : GatherState = record st { raw = e.raw } in
    elim (asks_scope e.raw.tags st.window_extended) [
      | true ↦ returned (record {
        graph_state = record stored { awaiting_scope = true };
        final_output = none;
        token_usage_delta = no_usage;
      })
      | false ↦ assemble ctx st.plan e st.lookback_hours >>= λ a. returned (record {
        graph_state = record stored { evidence_package_id = some a.pkg.evidence_package_id };
        final_output = some a.pkg;
        token_usage_delta = a.usage;
      })
    ]

unfoldable pub gather_leg :
    GatherContext
    → Option HitlResponse
    → GatherState
    → Raising (LegResult GatherState EvidencePackage)
unfolding extended gathered
gather_leg ctx hitl state = gathered ctx (extended state hitl)
