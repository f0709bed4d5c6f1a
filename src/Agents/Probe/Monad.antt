-- ===== src/Agents/Probe/Monad.antt =====
-- packages/agents/src/rca_agents/workflow.py: the attributes of a `ProbeWorkflow`, and its steps. An
-- exception is the name of its class; a step may also wait for an answer for ever.
use industrial_rca.Prelude.{String, Option, List, ◌∷◌, [], ◌++◌}
use industrial_rca.Agents.Contracts.{Raising, returned, raised, TokenUsage}
use industrial_rca.Agents.Analysis.{RcaConclusion}

-- The calls of activities that have answered, beside the legs.
pub data Activity : Type 0 where
  initialized : Activity
  persisted : RcaConclusion → Activity
  created_wo : RcaConclusion → String → Activity
  finalized : String → Option String → TokenUsage → Activity

pub record Probe : Type 0 where
  pub status : String
  pub phase : String
  pub cum_usage : TokenUsage
  pub canonical_id : Option String
  pub conclusion_id : Option String
  pub activities : List Activity

pub data Outcome (A : Type 0) : Type 0 where
  yields : A → Outcome A
  fails : String → Outcome A
  waits : Outcome A

abbrev pub M : Type 0 → Type 0
M A = Probe → Outcome A × Probe

-- What comes after a step.
abbrev pub after : {A B : Type 0} → (A → M B) → Outcome A × Probe → Outcome B × Probe
after f (yields a, w) = f a w
after f (fails e, w) = (fails e, w)
after f (waits, w) = (waits, w)

infixl 5 ◌>>=◌ ◌>>◌
abbrev pub ◌>>=◌ : {A B : Type 0} → M A → (A → M B) → M B
◌>>=◌ m f w = after f (m w)

abbrev pub ◌>>◌ : {A B : Type 0} → M A → M B → M B
m >> k = m >>= λ a. k

abbrev pub pure : {A : Type 0} → A → M A
pure a w = (yields a, w)

abbrev pub modify : (Probe → Probe) → M (Unit {0})
modify f w = (yields tt, f w)

-- A call of an activity: it is kept when it has answered.
abbrev pub execute : {A : Type 0} → Raising A → (Probe → Activity) → M A
execute (returned a) call w = (yields a, record w { activities = w.activities ++ (call w ∷ []) })
execute (raised e) call w = (fails e, w)
