-- ===== src/Agents/Probe/Posts.antt =====
-- packages/agents/src/rca_agents/workflow.py: what the steps of a probe may write, and a rule for each of
-- its constructs.
use industrial_rca.Prelude.{
  String, Bool, true, Option, some, Any, ◌≡◌, refl, List, [], ◌∷◌, ◌++◌, length, ◌<◌, mem_text, All,
  All-append,
}
use industrial_rca.Agents.Contracts.{HitlResponse, or_else, Raising, returned, raised, TokenUsage}
use industrial_rca.Agents.Analysis.{RcaConclusion}
use industrial_rca.Agents.Analysis.Waiting.{IsSound}
use industrial_rca.Agents.Bridge.{Run, finished, waiting, stopped}
use industrial_rca.Agents.Probe.Monad.{
  Activity, initialized, persisted, created_wo, finalized, Probe, Outcome, yields, fails, waits, M,
  after, execute,
}
use industrial_rca.Agents.Probe.Workflow.{ProbeResult, ran}

-- One of the answers to the analysis approves the conclusion, at its time and with its notes; `actions`
-- is what it says of the recommended actions.
pub record IsApprovedBy (answers : List (Option HitlResponse)) (c : RcaConclusion) (actions : Bool)
    : Type 0 where
  pub hitl : HitlResponse
  pub among : Any (λ a. a ≡ some hitl) answers
  pub approves : hitl.approved ≡ true
  pub at_its_time : c.finalized_at ≡ some hitl.responded_at
  pub with_its_notes : c.engineer_notes ≡ hitl.engineer_notes
  pub of_actions : or_else hitl.actions_approved true ≡ actions

-- A conclusion that an answer approves, with a chain of three to seven whys.
abbrev pub Approved : List (Option HitlResponse) → RcaConclusion → Bool → Type 0
Approved answers c actions = IsSound c × IsApprovedBy answers c actions

-- What an activity may write.
abbrev pub Allowed : List (Option HitlResponse) → Activity → Type 0
Allowed answers initialized = Unit
Allowed answers (persisted c) = (actions : Bool) × Approved answers c actions
Allowed answers (created_wo c event_id) =
    Approved answers c true × (0 < length c.recommended_actions)
Allowed answers (finalized status canonical_id used) = Unit

abbrev pub terminal : List String
terminal = "planning_aborted" ∷ "conclusion_rejected" ∷ "completed" ∷ "budget_exceeded" ∷ []

-- The last call has written what is reported.
pub record Reported (r : ProbeResult) (w : Probe) : Type 0 where
  pub earlier : List Activity
  pub last : w.activities ≡ earlier ++ (finalized r.status r.canonical_id r.token_usage ∷ [])
  pub is_terminal : mem_text r.status terminal ≡ true
  pub same_status : w.status ≡ r.status

module _ (answers : List (Option HitlResponse)) where
  abbrev pub Safe : Probe → Type 0
  Safe w = All (Allowed answers) w.activities

  -- A step leaves only what is allowed, and what it yields has `Q`.
  pub data Post {A : Type 0} (Q : A → Probe → Type 0) : Outcome A × Probe → Type 0 where
    yielding : (a : A) (w : Probe) → Safe w → Q a w → Post Q (yields a, w)
    failing : (e : String) (w : Probe) → Safe w → Post Q (fails e, w)
    forever : (w : Probe) → Safe w → Post Q (waits, w)

  pub Post-after :
      {A B : Type 0} (Q : A → Probe → Type 0) (R : B → Probe → Type 0) (f : A → M B)
      (r : Outcome A × Probe)
      → Post Q r
      → ((a : A) (w : Probe) → Safe w → Q a w → Post R (f a w))
      → Post R (after f r)
  Post-after Q R f r (yielding a w s q) k = k a w s q
  Post-after Q R f r (failing e w s) k = failing e w s
  Post-after Q R f r (forever w s) k = forever w s

  pub execute-Post :
      {A : Type 0} (r : Raising A) (call : Probe → Activity) (w : Probe)
      → Safe w
      → Allowed answers (call w)
      → Post
          (λ (a : A) v. v ≡ record w { activities = w.activities ++ (call w ∷ []) })
          (execute r call w)
  execute-Post (returned a) call w s h =
      yielding a _ (All-append (Allowed answers) w.activities (call w ∷ []) s (h, tt)) refl
  execute-Post (raised e) call w s h = failing e w s

  pub ran-Post :
      {S O : Type 0} (Q : O → Type 0) (r : Run S O) (w : Probe)
      → ((o : O) (used : TokenUsage) → r ≡ finished o used → Q o)
      → Safe w
      → Post (λ o v. Q o) (ran r w)
  ran-Post Q (finished o used) w k s = yielding o _ s (k o used refl)
  ran-Post Q (waiting st used) w k s = forever _ s
  ran-Post Q (stopped e used) w k s = failing e _ s

abbrev pub Whatever : {A : Type 0} → A → Probe → Type 0
Whatever a w = Unit

pub completed-mem : mem_text "completed" terminal ≡ true
unfolding mem_text
completed-mem = refl

pub rejected-mem : mem_text "conclusion_rejected" terminal ≡ true
unfolding mem_text
rejected-mem = refl

pub aborted-mem : mem_text "planning_aborted" terminal ≡ true
unfolding mem_text
aborted-mem = refl

pub budget-mem : mem_text "budget_exceeded" terminal ≡ true
unfolding mem_text
budget-mem = refl
