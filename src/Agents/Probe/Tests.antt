-- ===== src/Agents/Probe/Tests.antt =====
-- The theorems of the workflow at concrete inputs.
use industrial_rca.Prelude.{String, true, ◌≡◌, ◌⊎◌, refl, none, some, [], ◌∷◌, All, arith}
use industrial_rca.Agents.Contracts.{returned, raised, TokenUsage, no_usage}
use industrial_rca.Agents.Bridge.{Leg, run_agent}
use industrial_rca.Agents.Analysis.Tests as Analysis
use industrial_rca.Agents.Gather.Tests as Gather
use industrial_rca.Agents.Gather.Legs.{gather_leg}
use industrial_rca.Agents.Analysis.Legs.{run_leg}
use industrial_rca.Agents.Probe.Monad.{yields, fails}
use industrial_rca.Agents.Probe.Workflow.{
  PlanningOutput, planned, Services, Answers, ProbeResult, run_probe, started,
}
use industrial_rca.Agents.Probe.Reports.{run_writes_approved, run_reports_result}
use industrial_rca.Agents.Probe.Posts.{Allowed, Reported}
use industrial_rca.Agents.Probe.Ending.{Settled, has_output, run_probe_ends}

abbrev plan_at_once : Leg (Unit {0}) PlanningOutput
plan_at_once n used hitl st = returned (record {
  graph_state = tt;
  final_output = some (planned Gather.plan);
  token_usage_delta = no_usage;
})

abbrev services : Services (Unit {0})
services = record {
  init_probe_run = returned tt;
  persist_conclusion_to_kg = λ c. returned "event-1";
  create_followup_wo = λ c event_id. raised "HttpError";
  finalize_probe_run = λ status. returned tt;
  planning_leg = plan_at_once;
  planning_seed = tt;
  gather_context = λ n used. Gather.context;
  rca_context = Analysis.context;
  rca_model = λ n used. Analysis.model;
  lookback_hours = λ json. none;
}

abbrev answers : Answers
answers = record {
  to_planning = [];
  to_gather = some (Analysis.answer_of true) ∷ [];
  to_rca = Analysis.approvals;
}

run_writes_approved_example :
    All (Allowed Analysis.approvals) (run_probe services answers started).1.activities
run_writes_approved_example = run_writes_approved services answers

settled : (used : TokenUsage) → Settled (run_agent plan_at_once [] used tt)
unfolding run_agent
settled used = has_output _ _

run_probe_ends_example :
    ((r : ProbeResult) × ((run_probe services answers started).0 ≡ yields r))
    ⊎ ((e : String) × ((run_probe services answers started).0 ≡ fails e))
run_probe_ends_example = run_probe_ends services answers settled (omega arith) (omega arith)

abbrev reported : ProbeResult
reported = record {
  status = "completed";
  canonical_id = some "asset:gc:u1:p-101";
  conclusion_id = some "id";
  failure_event_id = some "event-1";
  followup_wo_id = none;
  wo_creation_status = none;
  token_usage = record { input_tokens = 20; output_tokens = 10 };
}

probe_run : (run_probe services answers started).0 ≡ yields reported
unfolding run_probe run_agent gather_leg run_leg
probe_run = refl

run_reports_result_example : Reported reported (run_probe services answers started).1
run_reports_result_example = run_reports_result services answers reported probe_run
