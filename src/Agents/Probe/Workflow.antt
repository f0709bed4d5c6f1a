-- ===== src/Agents/Probe/Workflow.antt =====
-- packages/agents/src/rca_agents/workflow.py, `ProbeWorkflow.run`, `_close` and `_finalize`. What an
-- activity answers after Temporal's retries is an argument, and so are the legs of the planning; the
-- engineer's answers are given for each agent.

use industrial_rca.Prelude.{
  ℕ, String, Bool, true, false, ◌&&◌, ◌||◌, Option, none, some, List, [], ◌∷◌, ◌++◌, map, length,
  str_eq, ltb, if◌then◌else◌, ◌==◌,
}
use industrial_rca.Agents.Contracts.{
  Raising, returned, raised, TokenUsage, no_usage, PlanStep, InvestigationPlan, HitlResponse,
}
use industrial_rca.Agents.Analysis as Analysis
use industrial_rca.Agents.Analysis.{LegContext, Model, RcaConclusion}
use industrial_rca.Agents.Analysis.Waiting.{rca_leg, seed}
use industrial_rca.Agents.Bridge.{Run, finished, waiting, stopped, Leg, run_agent}
use industrial_rca.Agents.Gather.{GatherContext, EvidencePackage, TagAnomaly}
use industrial_rca.Agents.Gather.Steps.{no_rows}
use industrial_rca.Agents.Gather.Legs.{gather_leg, GatherState}
use industrial_rca.Agents.Probe.Monad.{
  initialized, persisted, created_wo, finalized, Probe, Outcome, yields, fails, waits, M, ◌>>=◌,
  ◌>>◌, pure, modify, execute,
}

-- The final output of the planning.
pub data PlanningOutput : Type 0 where
  planning_aborted : PlanningOutput
  planned : InvestigationPlan → PlanningOutput

-- What the workflow runs on: the activities' answers, the legs of the planning, and the contexts of the
-- other legs. `lookback_hours` reads the parameters of a step.
pub record Services (S : Type 0) : Type 0 where
  pub init_probe_run : Raising (Unit {0})
  pub persist_conclusion_to_kg : RcaConclusion → Raising String
  pub create_followup_wo : RcaConclusion → String → Raising (Option String)
  pub finalize_probe_run : String → Raising (Unit {0})
  pub planning_leg : Leg S PlanningOutput
  pub planning_seed : S
  pub gather_context : ℕ → TokenUsage → GatherContext
  pub rca_context : LegContext
  pub rca_model : ℕ → TokenUsage → Model
  pub lookback_hours : String → Option ℕ

pub record Answers : Type 0 where
  pub to_planning : List (Option HitlResponse)
  pub to_gather : List (Option HitlResponse)
  pub to_rca : List (Option HitlResponse)

pub record ProbeResult : Type 0 where
  pub status : String
  pub canonical_id : Option String
  pub conclusion_id : Option String
  pub failure_event_id : Option String
  pub followup_wo_id : Option String
  pub wo_creation_status : Option String
  pub token_usage : TokenUsage

-- `_is_budget_exceeded`: the exception of a leg is the cause of the activity's error, and its type ends
-- with the name.
unfoldable pub ends_with : String → String → Bool
ends_with String.[] t = str_eq "" t
ends_with (String.◌∷◌ c s) t = str_eq (String.◌∷◌ c s) t || ends_with s t

abbrev pub is_budget_exceeded : String → Bool
is_budget_exceeded e = ends_with e "TokenBudgetExceeded"

-- `_run_agent`, as a step of the workflow.
abbrev pub ran : {S O : Type 0} → Run S O → M O
ran (finished o used) w = (yields o, record w { cum_usage = used })
ran (waiting s used) w = (waits, record w { cum_usage = used })
ran (stopped e used) w = (fails e, record w { cum_usage = used })

abbrev pub agent : {S O : Type 0} → Leg S O → List (Option HitlResponse) → S → M O
agent leg answers seed w = ran (run_agent leg answers w.cum_usage seed) w

abbrev pub enter : String → M (Unit {0})
enter phase = modify (λ w. record w { status = phase; phase = phase })

-- `next((... for s in steps if ...), 168)`: the first tag history with hours that are not 0.
unfoldable pub lookback_of : (String → Option ℕ) → List PlanStep → ℕ
lookback_of hours [] = 168
lookback_of hours (s ∷ steps) =
    let rest = lookback_of hours steps in
    if str_eq s.step_type "tag_history"
    then elim (hours s.parameters) [ none ↦ rest | some h ↦ if h == 0 then rest else h ]
    else rest

abbrev summary_of : TagAnomaly → String
summary_of a = a.summary

-- The package, as the analysis reads it.
abbrev pub evidence_of : EvidencePackage → Analysis.EvidencePackage
evidence_of pkg = record {
  evidence_package_id = pkg.evidence_package_id;
  canonical_id = pkg.canonical_id;
  asset_name = pkg.asset_name;
  anomalies = map summary_of pkg.anomalies;
  applicable_failure_modes = pkg.applicable_failure_modes;
}

-- `approval in ("approved", "approved_with_edits")`.
unfoldable pub is_approved : Option String → Bool
is_approved none = false
is_approved (some s) = str_eq s "approved" || str_eq s "approved_with_edits"

module _ {S : Type 0} (sv : Services S) where
  unfoldable pub finalize : Option String → String → Option String → M ProbeResult
  finalize canonical_id status conclusion_id = do
    modify (λ w. record w { status = status })
    execute (sv.finalize_probe_run status) (λ w. finalized status canonical_id w.cum_usage)
    λ w. (
      yields (record {
        status = status;
        canonical_id = canonical_id;
        conclusion_id = conclusion_id;
        failure_event_id = none;
        followup_wo_id = none;
        wo_creation_status = none;
        token_usage = w.cum_usage;
      }),
      w,
    )

  -- The follow-up order: its id and the status; a failure is a status.
  abbrev pub ordered :
      RcaConclusion → String → Raising (Option String) → M (Option String × Option String)
  ordered c event_id (returned id) w = (
    yields (id, some "created"),
    record w { activities = w.activities ++ (created_wo c event_id ∷ []) },
  )
  ordered c event_id (raised e) w = (yields (none, some "failed"), w)

  unfoldable pub follow_up : RcaConclusion → Bool → String → M (Option String × Option String)
  follow_up c actions_approved event_id =
      elim (ltb 0 (length c.recommended_actions) && actions_approved) [
        | true ↦ ordered c event_id (sv.create_followup_wo c event_id)
        | false ↦ pure (none, none)
      ]

  unfoldable pub close : Option String → RcaConclusion → Bool → M ProbeResult
  unfolding finalize follow_up
  close canonical_id c actions_approved = do
    enter "awaiting_review"
    event_id ← execute (sv.persist_conclusion_to_kg c) (λ w. persisted c)
    order ← follow_up c actions_approved event_id
    result ← finalize canonical_id "completed" (some c.conclusion_id)
    pure (record result {
      failure_event_id = some event_id;
      followup_wo_id = order.0;
      wo_creation_status = order.1;
    })

  unfoldable pub conclude : String → RcaConclusion × Bool → M ProbeResult
  unfolding close is_approved
  conclude canonical_id (c, actions_approved) = do
    modify (λ w. record w { conclusion_id = some c.conclusion_id })
    elim (is_approved c.engineer_approval_status) [
      | true ↦ close (some canonical_id) c actions_approved
      | false ↦ finalize (some canonical_id) "conclusion_rejected" (some c.conclusion_id)
    ]

  abbrev pub gather_seed : InvestigationPlan → GatherState
  gather_seed plan = record {
    plan = plan;
    awaiting_scope = false;
    lookback_hours = lookback_of sv.lookback_hours plan.steps;
    window_extended = false;
    raw = no_rows;
    evidence_package_id = none;
  }

  abbrev pub gather_legs : Leg GatherState EvidencePackage
  gather_legs n used = gather_leg (sv.gather_context n used)

  unfoldable pub analyze : Answers → InvestigationPlan → EvidencePackage → M ProbeResult
  unfolding conclude
  analyze answers plan pkg = do
    enter "analyzing"
    concluded ← agent (rca_leg sv.rca_context (evidence_of pkg) sv.rca_model) answers.to_rca seed
    conclude plan.asset_canonical_id concluded

  unfoldable pub investigate : Answers → InvestigationPlan → M ProbeResult
  unfolding lookback_of analyze
  investigate answers plan = do
    modify (λ w. record w { canonical_id = some plan.asset_canonical_id })
    enter "gathering"
    pkg ← agent gather_legs answers.to_gather (gather_seed plan)
    analyze answers plan pkg

  unfoldable pub after_planning : Answers → PlanningOutput → M ProbeResult
  unfolding finalize investigate
  after_planning answers planning_aborted = finalize none "planning_aborted" none
  after_planning answers (planned plan) = investigate answers plan

  -- The `except`: a breach of the budget ends the probe with what is known.
  unfoldable pub guarded : Outcome ProbeResult × Probe → Outcome ProbeResult × Probe
  unfolding finalize ends_with
  guarded (yields r, w) = (yields r, w)
  guarded (waits, w) = (waits, w)
  guarded (fails e, w) = elim (is_budget_exceeded e) [
    | true ↦ finalize w.canonical_id "budget_exceeded" w.conclusion_id w
    | false ↦ (fails e, w)
  ]

  unfoldable pub body : Answers → M ProbeResult
  unfolding after_planning
  body answers = do
    enter "planning"
    planning ← agent sv.planning_leg answers.to_planning sv.planning_seed
    after_planning answers planning

  unfoldable pub run_probe : Answers → M ProbeResult
  unfolding guarded body
  run_probe answers = do execute sv.init_probe_run (λ w. initialized); λ w. guarded (body answers w)

abbrev pub started : Probe
started = record {
  status = "running";
  phase = "init";
  cum_usage = no_usage;
  canonical_id = none;
  conclusion_id = none;
  activities = [];
}
