-- ===== src/Agents/Probe/Reports.antt =====
-- packages/agents/src/rca_agents/workflow.py: what a probe writes and reports, whatever the activities,
-- the legs and the engineer answer.
use industrial_rca.Prelude.{
  String, Bool, true, false, ◌⊎◌, List, Any, ◌&&◌, ◌≡◌, refl, ap, sym, subst, ◌∙◌, Option, none,
  some, [], ◌∷◌, ◌++◌, length, ltb, ◌<◌, mem_text, All, All-append, arith, Bool-cases, inl, inr,
}
use industrial_rca.Agents.Contracts.{
  HitlResponse, or_else, Raising, returned, raised, InvestigationPlan,
}
use industrial_rca.Agents.Analysis.{RcaConclusion}
use industrial_rca.Agents.Analysis.Bound.{analysis_decided}
use industrial_rca.Agents.Analysis.Waiting.{IsDecided, rca_leg, seed}
use industrial_rca.Agents.Bridge.{run_agent}
use industrial_rca.Agents.Gather.{EvidencePackage}
use industrial_rca.Agents.Probe.Monad.{
  initialized, persisted, created_wo, finalized, Probe, Outcome, yields, execute,
}
use industrial_rca.Agents.Probe.Workflow.{
  body, analyze, gather_seed, gather_legs, PlanningOutput, planned, planning_aborted, Services,
  Answers, ProbeResult, is_budget_exceeded, agent, evidence_of, finalize, ordered, follow_up, close,
  is_approved, conclude, investigate, after_planning, guarded, body, run_probe, started,
}
use industrial_rca.Agents.Probe.Posts.{
  Post, Allowed, Whatever, Approved, IsApprovedBy, Post-after, Reported, Safe, aborted-mem,
  budget-mem, completed-mem, execute-Post, failing, forever, ran-Post, rejected-mem, terminal,
  yielding,
}

rejected_not_approved : is_approved (some "rejected") ≡ false
unfolding is_approved
rejected_not_approved = refl

module _ {S : Type 0} (sv : Services S) (answers : Answers) where
  finalize-Post :
      (canonical_id : Option String) (status : String) (conclusion_id : Option String) (w : Probe)
      → mem_text status terminal ≡ true
      → Safe answers.to_rca w
      → Post answers.to_rca Reported (finalize sv canonical_id status conclusion_id w)
  unfolding finalize
  finalize-Post canonical_id status conclusion_id w t s =
      Post-after answers.to_rca _ Reported _ _
        (execute-Post answers.to_rca (sv.finalize_probe_run status)
          (λ v. finalized status canonical_id v.cum_usage) (record w { status = status }) s tt)
        (λ a v safe e. yielding _ v safe (record {
          earlier = w.activities;
          last =
              ap (λ (x : Probe). x.activities) e
              ∙ ap (λ u. w.activities ++ (finalized status canonical_id u ∷ []))
                  (sym (ap (λ (x : Probe). x.cum_usage) e));
          is_terminal = t;
          same_status = ap (λ (x : Probe). x.status) e;
        }))

  follow_up-Post :
      (c : RcaConclusion) (actions_approved : Bool) (event_id : String) (w : Probe)
      → Approved answers.to_rca c actions_approved
      → Safe answers.to_rca w
      → Post answers.to_rca Whatever (follow_up sv c actions_approved event_id w)
  unfolding follow_up
  follow_up-Post c actions_approved event_id w h s =
      elim (Bool-cases (ltb 0 (length c.recommended_actions) && actions_approved)) [
        | inl y ↦
            rw (y, follow_up)
              (ordered-Post (sv.create_followup_wo c event_id) (ground arith)
                (let a : actions_approved ≡ true = ground arith in a))
        | inr n ↦ rw (n, follow_up) (yielding _ w s tt)
      ]
    where
      ordered-Post :
          (r : Raising (Option String))
          → 0 < length c.recommended_actions
          → actions_approved ≡ true
          → Post answers.to_rca Whatever (ordered sv c event_id r w)
      ordered-Post (returned id) l a =
          yielding _ _
            (All-append (Allowed answers.to_rca) w.activities (created_wo c event_id ∷ []) s
              ((subst (Approved answers.to_rca c) a h, l), tt))
            tt
      ordered-Post (raised e) l a = yielding _ _ s tt

  close-Post :
      (canonical_id : Option String) (c : RcaConclusion) (actions_approved : Bool) (w : Probe)
      → Approved answers.to_rca c actions_approved
      → Safe answers.to_rca w
      → Post answers.to_rca Reported (close sv canonical_id c actions_approved w)
  unfolding close
  close-Post canonical_id c actions_approved w h s =
      Post-after answers.to_rca _ Reported _ _
        (execute-Post answers.to_rca (sv.persist_conclusion_to_kg c) (λ v. persisted c)
          (record w { status = "awaiting_review"; phase = "awaiting_review" }) s
          (actions_approved, h))
        (λ event_id v sv1 e.
          Post-after answers.to_rca _ Reported _ _
            (follow_up-Post c actions_approved event_id v h sv1)
            (λ order u su q.
              Post-after answers.to_rca _ Reported _ _
                (finalize-Post canonical_id "completed" (some c.conclusion_id) u completed-mem su)
                (λ r x sx k. yielding _ x sx (record {
                  earlier = k.earlier;
                  last = k.last;
                  is_terminal = k.is_terminal;
                  same_status = k.same_status;
                }))))

  conclude-Post :
      (canonical_id : String) (c : RcaConclusion) (actions_approved : Bool) (w : Probe)
      → (hitl : HitlResponse) → Any (λ a. a ≡ some hitl) answers.to_rca
      → IsDecided hitl (c, actions_approved)
      → Safe answers.to_rca w
      → Post answers.to_rca Reported (conclude sv canonical_id (c, actions_approved) w)
  unfolding conclude
  conclude-Post canonical_id c actions_approved w hitl g d s =
      elim (Bool-cases (is_approved c.engineer_approval_status)) [
        | inl y ↦
            rw (y, conclude)
              (close-Post (some canonical_id) c actions_approved
                (record w { conclusion_id = some c.conclusion_id })
                (d.sound, approved_by y d.decided) s)
        | inr n ↦
            rw (n, conclude)
              (finalize-Post (some canonical_id) "conclusion_rejected" (some c.conclusion_id)
                (record w { conclusion_id = some c.conclusion_id }) rejected-mem s)
      ]
    where
      approved_by :
          is_approved c.engineer_approval_status ≡ true
          → ((hitl.approved ≡ true)
              × (c.finalized_at ≡ some hitl.responded_at)
              × (c.engineer_notes ≡ hitl.engineer_notes)
              × (actions_approved ≡ or_else hitl.actions_approved true))
            ⊎ (c.engineer_approval_status ≡ some "rejected")
          → IsApprovedBy answers.to_rca c actions_approved
      approved_by y (inl (agreed, time, notes, actions)) = record {
        hitl = hitl;
        among = g;
        approves = agreed;
        at_its_time = time;
        with_its_notes = notes;
        of_actions = sym actions;
      }
      approved_by y (inr r) =
          let clash : false ≡ true = sym rejected_not_approved ∙ ap is_approved (sym r) ∙ y in
          absurd (let b : ⊥ = cc in b)

  -- An answer has decided what the analysis ends with.
  abbrev IsMade : RcaConclusion × Bool → Type 0
  IsMade o = (hitl : HitlResponse) × Any (λ a. a ≡ some hitl) answers.to_rca × IsDecided hitl o

  analyze-Post :
      (plan : InvestigationPlan) (pkg : EvidencePackage) (w : Probe)
      → Safe answers.to_rca w
      → Post answers.to_rca Reported (analyze sv answers plan pkg w)
  unfolding analyze
  analyze-Post plan pkg w s =
      let leg = rca_leg sv.rca_context (evidence_of pkg) sv.rca_model in
      Post-after answers.to_rca (λ o x. IsMade o) Reported (conclude sv plan.asset_canonical_id)
        (agent leg answers.to_rca seed (record w { status = "analyzing"; phase = "analyzing" }))
        (ran-Post answers.to_rca IsMade (run_agent leg answers.to_rca w.cum_usage seed) _
          (analysis_decided sv.rca_context (evidence_of pkg) sv.rca_model answers.to_rca
            w.cum_usage)
          s)
        (λ o x sx (hitl, g, d). conclude-Post plan.asset_canonical_id o.0 o.1 x hitl g d sx)

  investigate-Post :
      (plan : InvestigationPlan) (w : Probe)
      → Safe answers.to_rca w
      → Post answers.to_rca Reported (investigate sv answers plan w)
  unfolding investigate
  investigate-Post plan w s =
      let v : Probe = record w {
        canonical_id = some plan.asset_canonical_id;
        status = "gathering";
        phase = "gathering";
      } in
      Post-after answers.to_rca Whatever Reported (analyze sv answers plan)
        (agent (gather_legs sv) answers.to_gather (gather_seed sv plan) v)
        (ran-Post answers.to_rca (λ o. Unit {0})
          (run_agent (gather_legs sv) answers.to_gather v.cum_usage (gather_seed sv plan)) v
          (λ o used e. tt) s)
        (λ pkg x sx q. analyze-Post plan pkg x sx)

  after_planning-Post :
      (p : PlanningOutput) (w : Probe)
      → Safe answers.to_rca w
      → Post answers.to_rca Reported (after_planning sv answers p w)
  unfolding after_planning
  after_planning-Post planning_aborted w s =
      finalize-Post none "planning_aborted" none w aborted-mem s
  after_planning-Post (planned plan) w s = investigate-Post plan w s

  guarded-Post :
      (r : Outcome ProbeResult × Probe)
      → Post answers.to_rca Reported r
      → Post answers.to_rca Reported (guarded sv r)
  unfolding guarded
  guarded-Post r (yielding a w s q) = yielding a w s q
  guarded-Post r (forever w s) = forever w s
  guarded-Post r (failing e w s) = elim (Bool-cases (is_budget_exceeded e)) [
    | inl y ↦
        rw (y, guarded)
          (finalize-Post w.canonical_id "budget_exceeded" w.conclusion_id w budget-mem s)
    | inr n ↦ rw (n, guarded) (failing e w s)
  ]

  run_probe-Post : Post answers.to_rca Reported (run_probe sv answers started)
  unfolding run_probe body
  run_probe-Post =
      Post-after answers.to_rca (λ a v. v ≡ record started { activities = initialized ∷ [] })
        Reported (λ a w. guarded sv (body sv answers w))
        (execute sv.init_probe_run (λ w. initialized) started)
        (execute-Post answers.to_rca sv.init_probe_run (λ w. initialized) started tt tt)
        (λ a w s e.
          let v : Probe = record w { status = "planning"; phase = "planning" } in
          guarded-Post (body sv answers w) (
            Post-after answers.to_rca Whatever Reported (after_planning sv answers)
              (agent sv.planning_leg answers.to_planning sv.planning_seed v)
              (ran-Post answers.to_rca (λ p. Unit {0})
                (run_agent sv.planning_leg answers.to_planning w.cum_usage sv.planning_seed) v
                (λ o used x. tt) s)
              (λ p x sx q. after_planning-Post p x sx)))

safe_of :
    {A : Type 0} (answers : List (Option HitlResponse)) (Q : A → Probe → Type 0)
    (r : Outcome A × Probe)
    → Post answers Q r
    → All (Allowed answers) r.1.activities
safe_of answers Q r (yielding a w s q) = s
safe_of answers Q r (failing e w s) = s
safe_of answers Q r (forever w s) = s

-- Whatever the activities, the tools, the model and the engineer answer, and however the probe ends, the
-- knowledge graph gets no conclusion but one with a chain of three to seven whys that carries the time
-- and the notes of an answer to the analysis whose `approved` is true. A follow-up order is created only
-- for such a one, with a recommended action, where that answer does not refuse the actions. Which turn
-- the engineer sent the answer for is not followed.
pub run_writes_approved :
    {S : Type 0} (sv : Services S) (answers : Answers)
    → All (Allowed answers.to_rca) (run_probe sv answers started).1.activities
run_writes_approved sv answers = safe_of answers.to_rca Reported _ (run_probe-Post sv answers)

-- A probe that yields a result has reported it: the last call wrote its status, its asset and its tokens,
-- the workflow has that status, and it is one of the four that end a probe.
pub run_reports_result :
    {S : Type 0} (sv : Services S) (answers : Answers) (r : ProbeResult)
    → (run_probe sv answers started).0 ≡ yields r
    → Reported r (run_probe sv answers started).1
run_reports_result sv answers r e = reported _ e (run_probe-Post sv answers)
  where
    reported :
        (o : Outcome ProbeResult × Probe)
        → o.0 ≡ yields r
        → Post answers.to_rca Reported o
        → Reported r o.1
    reported o h (yielding a w s q) = let same : a ≡ r = cc in subst (λ x. Reported x w) same q
    reported o h (failing x w s) = absurd (let b : ⊥ = cc in b)
    reported o h (forever w s) = absurd (let b : ⊥ = cc in b)
