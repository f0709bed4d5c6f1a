-- ===== src/Agents/Bridge/Signals.antt =====
-- packages/agents/src/rca_agents/workflow.py: the signal `hitl_response` and the wait of `_run_agent`,
-- which make the answers that the legs get.
use industrial_rca.Prelude.{Option, none, some, List, [], ◌∷◌}
use industrial_rca.Agents.Contracts.{HitlResponse}

-- The signals that come while a leg runs, and what ends the wait after it: the first signal, or the
-- timeout.
pub record Wait : Type 0 where
  pub signals : List HitlResponse
  pub wake : Option HitlResponse

-- Each signal replaces the response that is kept.
unfoldable pub hitl_response : Option HitlResponse → List HitlResponse → Option HitlResponse
hitl_response kept [] = kept
hitl_response kept (r ∷ signals) = hitl_response (some r) signals

-- A response that is kept ends the wait at once; the leg gets it, and none is kept any more.
abbrev pub next_answer : Option HitlResponse → Option HitlResponse → Option HitlResponse
next_answer (some r) wake = some r
next_answer none wake = wake

unfoldable pub answers_of : Option HitlResponse → List Wait → List (Option HitlResponse)
unfolding hitl_response
answers_of kept [] = []
answers_of kept (w ∷ waits) =
    next_answer (hitl_response kept w.signals) w.wake ∷ answers_of none waits
