-- ===== src/Agents/Analysis/Nodes.antt =====
-- packages/agents/src/rca_agents/rca_graph.py, `_detect_gaps` and `_run_five_whys`: the nodes that may
-- pause an analysis for a question.
use industrial_rca.Agents.Contracts.{
  Raising, returned, ◌>>=◌, TokenUsage, merged_with, HitlQuestion, or_else,
}
use industrial_rca.Agents.Analysis.{
  LegContext, RawCategory, RawQuestion, WhyReply, WhyStep, Model, evidence_gaps, a_why, RcaState,
  RcaLeg, asks_gaps, asks_why, AgentLegResult, GapsReply, Bool,
}
use industrial_rca.Agents.Analysis.Words.{one_of, question_types, answer_sources, question_text}
use industrial_rca.Agents.Analysis.Conclusion.{min_five_whys}
use industrial_rca.Prelude.{
  ℕ, suc, zero, ◌+◌, ◌-◌, String, true, false, ◌&&◌, Option, none, some, List, [], ◌∷◌, ◌++◌,
  length, leb,
}

abbrev pub max_five_whys_depth : ℕ
max_five_whys_depth = 7

-- The questions about gaps, numbered from `i`; one without a text is left out.
unfoldable pub gap_questions : LegContext → ℕ → List RawQuestion → List HitlQuestion
unfolding one_of question_text
gap_questions ctx i [] = []
gap_questions ctx i (q ∷ raw) =
    let rest = gap_questions ctx (suc i) raw in
    elim (question_text q) [
      | none ↦ rest
      | some text ↦
          record {
            question_id = ctx.det_uuid ("rca" ∷ "gap" ∷ ctx.str i ∷ []);
            text = text;
            question_type = one_of ctx q.question_type question_types "context";
            required = false;
          }
          ∷ rest
    ]

-- What `_detect_gaps` returns: a pause, with the usage and the id of its own call.
pub record Paused : Type 0 where
  pub question : RcaLeg
  pub paused_state : RcaState
  pub usage : TokenUsage
  pub llm_call_id : String

abbrev pub merge : Paused → TokenUsage → List String → AgentLegResult
merge p usage ids = record {
  leg = p.question;
  graph_state = p.paused_state;
  token_usage_delta = merged_with usage p.usage;
  new_llm_call_ids = ids ++ (p.llm_call_id ∷ []);
}

-- `if structured.get("needs_hitl") and questions`.
unfoldable pub gaps_outcome :
    RcaState → GapsReply → Bool → List HitlQuestion → Option Paused × RcaState
gaps_outcome st r true (q ∷ questions) =
    let waiting : RcaState = record st { awaiting = some evidence_gaps } in
    (
      some (record {
        question = asks_gaps (q ∷ questions);
        paused_state = waiting;
        usage = r.usage;
        llm_call_id = r.llm_call_id;
      }),
      waiting,
    )
gaps_outcome st r true [] = (none, st)
gaps_outcome st r false questions = (none, st)

unfoldable pub detect_gaps :
    LegContext → Model → List RawCategory → RcaState → Raising (Option Paused × RcaState)
unfolding gap_questions gaps_outcome
detect_gaps ctx m raw st = elim st.gaps_checked [
  | true ↦ returned (none, st)
  | false ↦ m.detect_evidence_gaps raw >>= λ r. returned (
      gaps_outcome (record st { gaps_checked = true }) r r.needs_hitl
        (gap_questions ctx 0 r.questions))
]

-- The loop pauses on an answer, with the steps so far, or is done.
pub data Whys : Type 0 where
  asks : WhyReply → List WhyStep → Whys
  done : List WhyStep → Whys

abbrev pub step_of : LegContext → WhyReply → List WhyStep → WhyStep
step_of ctx s steps = record {
  rank = length steps + 1;
  why_question = or_else s.why_question "why?";
  answer = or_else s.answer "unknown";
  answer_source = one_of ctx s.answer_source answer_sources "agent_inference";
  supporting_evidence = s.supporting_evidence;
}

-- The body of the loop after the model's answer; `rest` is the loop on more steps.
unfoldable pub after_why :
    LegContext → List WhyStep → (List WhyStep → Raising Whys) → WhyReply → Raising Whys
unfolding one_of
after_why ctx steps rest s = elim (s.needs_human_knowledge && leb 1 (length steps)) [
  | true ↦ returned (asks s steps)
  | false ↦
      let more = steps ++ (step_of ctx s steps ∷ []) in
      elim (s.is_root_cause && leb min_five_whys (length more)) [
        | true ↦ returned (done more)
        | false ↦ rest more
      ]
]

-- `while len(steps) < MAX_FIVE_WHYS_DEPTH`, by the steps that are left: each round adds one.
unfoldable pub whys_loop : LegContext → Model → ℕ → List WhyStep → Raising Whys
unfolding after_why
whys_loop ctx m zero steps = returned (done steps)
whys_loop ctx m (suc left) steps =
    m.five_whys_step steps >>= λ s. after_why ctx steps (λ more. whys_loop ctx m left more) s

-- The end of `_run_five_whys`: a pause, or the chain in the state.
unfoldable pub whys_outcome : LegContext → RcaState → Whys → Option Paused × RcaState
whys_outcome ctx st (done steps) = (none, record st { five_whys = steps })
whys_outcome ctx st (asks s steps) =
    let waiting : RcaState = record st {
      five_whys = steps;
      pending_why = some (or_else s.why_question "why?");
      awaiting = some a_why;
    } in
    (
      some (record {
        question = asks_why (record {
          question_id = ctx.det_uuid ("rca" ∷ "why" ∷ ctx.str (length steps) ∷ []);
          text = or_else s.why_question "why?";
          question_type = "context";
          required = true;
        });
        paused_state = waiting;
        usage = s.usage;
        llm_call_id = s.llm_call_id;
      }),
      waiting,
    )

unfoldable pub run_five_whys : LegContext → Model → RcaState → Raising (Option Paused × RcaState)
unfolding whys_loop whys_outcome
run_five_whys ctx m st =
    whys_loop ctx m (max_five_whys_depth - length st.five_whys) st.five_whys >>= λ w.
    returned (whys_outcome ctx st w)
