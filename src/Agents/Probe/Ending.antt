-- ===== src/Agents/Probe/Ending.antt =====
-- packages/agents/src/rca_agents/workflow.py: a probe does not wait for ever.
use industrial_rca.Prelude.{
  ◌≤◌, String, Bool, ◌&&◌, ltb, ◌≡◌, ◌⊎◌, inl, inr, refl, Option, none, some, length, Bool-cases,
}
use industrial_rca.Agents.Contracts.{Raising, returned, raised, TokenUsage, InvestigationPlan}
use industrial_rca.Agents.Analysis.{RcaConclusion}
use industrial_rca.Agents.Analysis.Bound.{analysis_ends}
use industrial_rca.Agents.Analysis.Waiting.{rca_leg, seed}
use industrial_rca.Agents.Bridge.{Run, finished, waiting, stopped, run_agent}
use industrial_rca.Agents.Gather.{EvidencePackage}
use industrial_rca.Agents.Gather.Window.{gather_ends}
use industrial_rca.Agents.Probe.Monad.{
  Activity, initialized, persisted, Probe, Outcome, yields, fails, M, after, execute,
}
use industrial_rca.Agents.Probe.Workflow.{
  PlanningOutput, planned, planning_aborted, Services, Answers, ProbeResult, is_budget_exceeded,
  ran, agent, evidence_of, finalize, ordered, follow_up, close, is_approved, conclude, analyze,
  gather_seed, gather_legs, investigate, after_planning, guarded, body, run_probe, started,
}

-- A run that does not wait.
pub data Settled {S O : Type 0} : Run S O → Type 0 where
  has_output : (o : O) (used : TokenUsage) → Settled (finished o used)
  was_stopped : (e : String) (used : TokenUsage) → Settled (stopped e used)

-- A step that does not wait.
data Done {A : Type 0} : Outcome A × Probe → Type 0 where
  yielded : (a : A) (w : Probe) → Done (yields a, w)
  failed : (e : String) (w : Probe) → Done (fails e, w)

Done-after :
    {A B : Type 0} (f : A → M B) (r : Outcome A × Probe)
    → Done r
    → ((a : A) (w : Probe) → Done (f a w))
    → Done (after f r)
Done-after f r (yielded a w) k = k a w
Done-after f r (failed e w) k = failed e w

execute-Done :
    {A : Type 0} (r : Raising A) (call : Probe → Activity) (w : Probe) → Done (execute r call w)
execute-Done (returned a) call w = yielded a _
execute-Done (raised e) call w = failed e w

ran-Done : {S O : Type 0} (r : Run S O) (w : Probe) → Settled r → Done (ran r w)
ran-Done r w (has_output o used) = yielded o _
ran-Done r w (was_stopped e used) = failed e _

never_waits :
    {S O : Type 0} (r : Run S O)
    → ((o : O) × (used : TokenUsage) × (r ≡ finished o used))
      ⊎ ((e : String) × (used : TokenUsage) × (r ≡ stopped e used))
    → Settled r
never_waits (finished o used) h = has_output o used
never_waits (stopped e used) h = was_stopped e used
never_waits (waiting s used) (inl (o, u, e)) = absurd (let b : ⊥ = cc in b)
never_waits (waiting s used) (inr (x, u, e)) = absurd (let b : ⊥ = cc in b)

module _ {S : Type 0} (sv : Services S) where
  finalize-Done :
      (canonical_id : Option String) (status : String) (conclusion_id : Option String) (w : Probe)
      → Done (finalize sv canonical_id status conclusion_id w)
  unfolding finalize
  finalize-Done canonical_id status conclusion_id w =
      Done-after _ _ (execute-Done (sv.finalize_probe_run status) _ (record w { status = status }))
        (λ a v. yielded _ v)

  follow_up-Done :
      (c : RcaConclusion) (actions_approved : Bool) (event_id : String) (w : Probe)
      → Done (follow_up sv c actions_approved event_id w)
  unfolding follow_up
  follow_up-Done c actions_approved event_id w =
      elim (Bool-cases (ltb 0 (length c.recommended_actions) && actions_approved)) [
        | inl y ↦ rw (y, follow_up) (ordered-Done (sv.create_followup_wo c event_id))
        | inr n ↦ rw (n, follow_up) (yielded _ w)
      ]
    where
      ordered-Done : (r : Raising (Option String)) → Done (ordered sv c event_id r w)
      ordered-Done (returned id) = yielded _ _
      ordered-Done (raised e) = yielded _ _

  conclude-Done :
      (canonical_id : String) (o : RcaConclusion × Bool) (w : Probe)
      → Done (conclude sv canonical_id o w)
  unfolding conclude close
  conclude-Done canonical_id (c, actions_approved) w =
      elim (Bool-cases (is_approved c.engineer_approval_status)) [
        | inl y ↦
            rw (y, conclude)
              (Done-after _ _ (execute-Done (sv.persist_conclusion_to_kg c) (λ v. persisted c) _)
                (λ event_id v.
                  Done-after _ _ (follow_up-Done c actions_approved event_id v) (λ order u.
                    Done-after _ _
                      (finalize-Done (some canonical_id) "completed" (some c.conclusion_id) u)
                      (λ r x. yielded _ x))))
        | inr n ↦
            rw (n, conclude)
              (finalize-Done (some canonical_id) "conclusion_rejected" (some c.conclusion_id)
                (record w { conclusion_id = some c.conclusion_id }))
      ]

  module _ (answers : Answers) (one : 1 ≤ length answers.to_gather)
      (ten : 10 ≤ length answers.to_rca) where
    analyze-Done :
        (plan : InvestigationPlan) (pkg : EvidencePackage) (w : Probe)
        → Done (analyze sv answers plan pkg w)
    unfolding analyze
    analyze-Done plan pkg w =
        let leg = rca_leg sv.rca_context (evidence_of pkg) sv.rca_model in
        let v : Probe = record w { status = "analyzing"; phase = "analyzing" } in
        Done-after (conclude sv plan.asset_canonical_id) (agent leg answers.to_rca seed v)
          (ran-Done (run_agent leg answers.to_rca w.cum_usage seed) v (
            never_waits _ (
              analysis_ends sv.rca_context (evidence_of pkg) sv.rca_model answers.to_rca w.cum_usage
                ten)))
          (λ o x. conclude-Done plan.asset_canonical_id o x)

    investigate-Done : (plan : InvestigationPlan) (w : Probe) → Done (investigate sv answers plan w)
    unfolding investigate
    investigate-Done plan w =
        let v : Probe = record w {
          canonical_id = some plan.asset_canonical_id;
          status = "gathering";
          phase = "gathering";
        } in
        Done-after (analyze sv answers plan)
          (agent (gather_legs sv) answers.to_gather (gather_seed sv plan) v)
          (ran-Done (run_agent (gather_legs sv) answers.to_gather v.cum_usage (gather_seed sv plan))
            v
            (gathered-Settled _ (
              gather_ends sv.gather_context answers.to_gather v.cum_usage (gather_seed sv plan)
                one)))
          (λ pkg x. analyze-Done plan pkg x)
      where
        gathered-Settled :
            {S O : Type 0} {Q : O → Type 0} (r : Run S O)
            → ((o : O) × (used : TokenUsage) × (r ≡ finished o used) × Q o)
              ⊎ ((e : String) × (used : TokenUsage) × (r ≡ stopped e used))
            → Settled r
        gathered-Settled r (inl (o, u, e, q)) = never_waits r (inl (o, u, e))
        gathered-Settled r (inr h) = never_waits r (inr h)

    after_planning-Done : (p : PlanningOutput) (w : Probe) → Done (after_planning sv answers p w)
    unfolding after_planning
    after_planning-Done planning_aborted w = finalize-Done none "planning_aborted" none w
    after_planning-Done (planned plan) w = investigate-Done plan w

  guarded-Done : (r : Outcome ProbeResult × Probe) → Done r → Done (guarded sv r)
  unfolding guarded
  guarded-Done r (yielded a w) = yielded a w
  guarded-Done r (failed e w) = elim (Bool-cases (is_budget_exceeded e)) [
    | inl y ↦ rw (y, guarded) (finalize-Done w.canonical_id "budget_exceeded" w.conclusion_id w)
    | inr n ↦ rw (n, guarded) (failed e w)
  ]

-- When the planning does not wait for ever, one answer in the gathering and ten in the analysis end a
-- probe, whatever the activities, the tools, the model and the engineer answer: it yields a result or
-- fails with an exception.
pub run_probe_ends :
    {S : Type 0} (sv : Services S) (answers : Answers)
    → ((used : TokenUsage)
        → Settled (run_agent sv.planning_leg answers.to_planning used sv.planning_seed))
    → 1 ≤ length answers.to_gather
    → 10 ≤ length answers.to_rca
    → ((r : ProbeResult) × ((run_probe sv answers started).0 ≡ yields r))
      ⊎ ((e : String) × ((run_probe sv answers started).0 ≡ fails e))
unfolding run_probe body
run_probe_ends sv answers planning one ten = ended _ (
    Done-after (λ a w. guarded sv (body sv answers w))
      (execute sv.init_probe_run (λ w. initialized) started)
      (execute-Done sv.init_probe_run (λ w. initialized) started)
      (λ a w. guarded-Done sv (body sv answers w) (
        Done-after (after_planning sv answers) _
          (ran-Done (run_agent sv.planning_leg answers.to_planning w.cum_usage sv.planning_seed) _
            (planning w.cum_usage))
          (λ p x. after_planning-Done sv answers one ten p x))))
  where
    ended :
        (o : Outcome ProbeResult × Probe)
        → Done o
        → ((r : ProbeResult) × (o.0 ≡ yields r)) ⊎ ((e : String) × (o.0 ≡ fails e))
    ended o (yielded a w) = inl (a, refl)
    ended o (failed e w) = inr (e, refl)
