-- ===== src/Agents/Analysis/Bound.antt =====
-- packages/agents/src/rca_agents/rca_graph.py, over the legs of an analysis: what it waits for and what
-- it ends with.
use industrial_rca.Agents.Contracts.{Raising, returned, ◌>>=◌, TokenUsage, HitlResponse, or_else}
use industrial_rca.Agents.Analysis.{
  LegContext, EvidencePackage, RawCategory, WhyStep, Model, Awaiting, evidence_gaps, a_why,
  a_review, RcaState, RcaConclusion, AgentLegResult, String,
}
use industrial_rca.Agents.Analysis.Words.{engineer_hitl-mem}
use industrial_rca.Agents.Analysis.Legs.{resume, run_leg, go_on}
use industrial_rca.Agents.Analysis.Nodes.{max_five_whys_depth}
use industrial_rca.Agents.Analysis.Answers.{
  finalize_or_regen, apply_answer, apply_hitl, first_answer, max_conclusion_regenerations,
}
use industrial_rca.Agents.Analysis.Whys.{IsChain, chain_add}
use industrial_rca.Agents.Analysis.Steps.{
  LegEnds, leg_fails, gaps_asked, why_asked, proposed, go_on-LegEnds,
}
use industrial_rca.Agents.Bridge.{
  LegResult, Run, run_agent, LegHolds, leg_raises, leg_ends, leg_waits, RunHolds,
  run_agent-RunHolds, finished, stopped, run_stops, run_ends, run_waits,
}
use industrial_rca.Prelude.{
  ℕ, suc, ◌+◌, ◌-◌, ◌≤◌, ◌<◌, ◌≡◌, refl, ap, Bool, Option, none, some, List, [], ◌∷◌, ◌++◌, length,
  length-append, arith, Bool-cases, inl, inr, ltb, ◌⊎◌, subst, Any,
}
use industrial_rca.Agents.Analysis.Waiting.{
  IsSound, IsDecided, Decides, IsWaiting, gaps_due, left, output_of, rca_leg, seed,
}

module _ (ctx : LegContext) (pkg : EvidencePackage) (model : ℕ → TokenUsage → Model) where
  abbrev pub adapted : Raising AgentLegResult → Raising (LegResult RcaState (RcaConclusion × Bool))
  adapted m = m >>= λ r. returned (record {
    graph_state = r.graph_state;
    final_output = output_of r.leg;
    token_usage_delta = r.token_usage_delta;
  })

  -- A leg that goes on from a chain with few regenerations.
  went_on :
      (Q : RcaConclusion × Bool → Type 0) (fishbone : Option (List RawCategory))
      (steps : List WhyStep) (regens : ℕ) (bound : ℕ) (m : Raising AgentLegResult)
      → regens ≤ 1
      → (fishbone ≡ none → 1 + (max_five_whys_depth - length steps) + (2 - regens) < bound)
      → (max_five_whys_depth - length steps) + (2 - regens) < bound
      → LegEnds fishbone steps regens m
      → LegHolds IsWaiting Q left bound (adapted m)
  went_on Q fishbone steps regens bound m few b l (leg_fails e) = leg_raises e
  went_on Q fishbone steps regens bound m few b l (gaps_asked r q k f e a) =
      leg_waits _ (ap output_of e)
        (record {
          chain = k.chain;
          few = omega (arith, k.same_regens, few);
          why_due = λ h. cc;
          built = k.built;
          due = (evidence_gaps, a);
          reviewed = λ h. cc;
        })
        (omega (arith, ap gaps_due a, b f, k.same_regens, k.grown))
  went_on Q fishbone steps regens bound m few b l (why_asked r q k e a d) =
      leg_waits _ (ap output_of e)
        (record {
          chain = k.chain;
          few = omega (arith, k.same_regens, few);
          why_due = λ h. d;
          built = k.built;
          due = (a_why, a);
          reviewed = λ h. cc;
        })
        (omega (arith, ap gaps_due a, l, k.same_regens, k.grown))
  went_on Q fishbone steps regens bound m few b l (proposed r c k e a o s h g) =
      leg_waits _ (ap output_of e)
        (record {
          chain = k.chain;
          few = omega (arith, k.same_regens, few);
          why_due = λ h. cc;
          built = k.built;
          due = (a_review, a);
          reviewed = λ w. (
            c,
            o,
            record { steps = r.graph_state.five_whys; steps_of = s; chain = k.chain; deep = h },
          );
        })
        (omega (arith, ap gaps_due a, l, k.same_regens, k.grown))

  continued :
      (Q : RcaConclusion × Bool → Type 0) (m : Model) (st : RcaState) (bound : ℕ)
      → IsChain st.five_whys
      → st.regen_count ≤ 1
      → (raw : List RawCategory) → st.fishbone ≡ some raw
      → (max_five_whys_depth - length st.five_whys) + (2 - st.regen_count) < bound
      → LegHolds IsWaiting Q left bound (adapted (go_on ctx m pkg st))
  continued Q m st bound c few raw f l =
      went_on Q st.fishbone st.five_whys st.regen_count bound (go_on ctx m pkg st) few (λ n. cc) l
        (go_on-LegEnds ctx m pkg st c)

  -- An answer about the review approves, gives up or has the conclusion made again.
  reviewed_leg :
      (m : Model) (st : RcaState) (hitl : HitlResponse) (bound : ℕ) (c : RcaConclusion)
      (raw : List RawCategory)
      → st.conclusion ≡ some c
      → IsSound c
      → IsChain st.five_whys
      → st.regen_count ≤ 1
      → st.fishbone ≡ some raw
      → (max_five_whys_depth - length st.five_whys) + (2 - st.regen_count) ≤ bound
      → LegHolds IsWaiting
          (IsDecided hitl)
          left
          bound
          (adapted (finalize_or_regen st hitl >>= λ r. resume ctx m pkg r))
  unfolding finalize_or_regen resume
  reviewed_leg m st hitl bound c raw e s k few f l = elim (Bool-cases hitl.approved) [
    | inl y ↦
        simp (e, y, finalize_or_regen)
          (leg_ends _ _ refl (record {
            sound = record {
              steps = s.steps;
              steps_of = s.steps_of;
              chain = s.chain;
              deep = s.deep;
            };
            decided = inl (y, refl, refl, refl);
          }))
    | inr n ↦ elim (Bool-cases (ltb max_conclusion_regenerations (suc st.regen_count))) [
      | inl y ↦
          simp (e, n, y, finalize_or_regen)
            (leg_ends _ _ refl (record {
              sound = record {
                steps = s.steps;
                steps_of = s.steps_of;
                chain = s.chain;
                deep = s.deep;
              };
              decided = inr refl;
            }))
      | inr z ↦
          simp (e, n, z, finalize_or_regen)
            (continued (IsDecided hitl) m
              (record st { regen_count = suc st.regen_count; conclusion = none }) bound k
              (ground arith) raw f (ground arith))
    ]
  ]

  answered :
      (m : Model) (a : Awaiting) (st : RcaState) (hitl : HitlResponse)
      → IsWaiting (record st { awaiting = some a })
      → LegHolds IsWaiting
          (IsDecided hitl)
          left
          (left (record st { awaiting = some a }))
          (adapted (apply_answer (some a) st hitl >>= λ r. resume ctx m pkg r))
  unfolding apply_answer resume
  answered m evidence_gaps st hitl w =
      continued (IsDecided hitl) m (record st { gap_answers = hitl.answers }) _ w.chain w.few
        w.built.0 w.built.1 (omega arith)
  answered m a_why st hitl w =
      let s : WhyStep = record {
        rank = length st.five_whys + 1;
        why_question = or_else st.pending_why "why?";
        answer = first_answer hitl.answers;
        answer_source = "engineer_hitl";
        supporting_evidence = [];
      } in
      continued (IsDecided hitl) m
        (record st { five_whys = st.five_whys ++ (s ∷ []); pending_why = none }) _
        (chain_add st.five_whys s w.chain (w.why_due refl) refl engineer_hitl-mem) w.few w.built.0
        w.built.1 (omega (arith, w.why_due refl, length-append st.five_whys (s ∷ [])))
  answered m a_review st hitl w =
      let (c, o, s) = w.reviewed refl in
      reviewed_leg m st hitl _ c w.built.0 o s w.chain w.few w.built.1 (omega arith)

  answered_leg :
      (n : ℕ) (used : TokenUsage) (hitl : HitlResponse) (st : RcaState)
      → IsWaiting st
      → LegHolds IsWaiting
          (IsDecided hitl)
          left
          (left st)
          (rca_leg ctx pkg model n used (some hitl) st)
  unfolding run_leg apply_hitl
  answered_leg n used hitl st w =
      let (a, e) = w.due in
      rw e (answered (model n used) a (record st { awaiting = none }) hitl (rw e at w))

  first_leg :
      (n : ℕ) (used : TokenUsage)
      → LegHolds IsWaiting (Decides none) left 11 (rca_leg ctx pkg model n used none seed)
  unfolding run_leg
  first_leg n used =
      went_on (Decides none) none [] 0 11 (go_on ctx (model n used) pkg seed) (omega arith)
        (λ e. omega arith) (omega arith)
        (go_on-LegEnds ctx (model n used) pkg seed
          (record { short = omega arith; ranked = tt; sourced = tt }))

  run_holds :
      (answers : List (Option HitlResponse)) (used : TokenUsage)
      → RunHolds IsWaiting Decides left 11 none answers
          (run_agent (rca_leg ctx pkg model) answers used seed)
  run_holds answers used =
      run_agent-RunHolds IsWaiting Decides left (rca_leg ctx pkg model) answered_leg answers used
        seed 11 (first_leg 0 used)

-- However the model answers in each leg, ten answers of the engineer end an analysis: it has an
-- output, or a leg raised an exception, or a wait timed out.
pub analysis_ends :
    (ctx : LegContext) (pkg : EvidencePackage) (model : ℕ → TokenUsage → Model)
    (answers : List (Option HitlResponse)) (used : TokenUsage)
    → 10 ≤ length answers
    → ((o : RcaConclusion × Bool) × (total : TokenUsage) × (run_agent
            (rca_leg ctx pkg model)
            answers
            used
            seed
          ≡ finished o total))
      ⊎ ((e : String) × (at : TokenUsage) × (run_agent (rca_leg ctx pkg model) answers used seed
            ≡ stopped e at))
analysis_ends ctx pkg model answers used l = ended _ (run_holds ctx pkg model answers used)
  where
    ended :
        (r : Run RcaState (RcaConclusion × Bool))
        → RunHolds IsWaiting Decides left 11 none answers r
        → ((o : RcaConclusion × Bool) × (total : TokenUsage) × (r ≡ finished o total))
          ⊎ ((e : String) × (at : TokenUsage) × (r ≡ stopped e at))
    ended r (run_stops e at) = inr (e, at, refl)
    ended r (run_ends o total given g q) = inl (o, total, refl)
    ended r (run_waits st total w m) = absurd (omega (arith, w.few, m, l))

-- What an analysis ends with was decided by one of its answers.
pub analysis_decided :
    (ctx : LegContext) (pkg : EvidencePackage) (model : ℕ → TokenUsage → Model)
    (answers : List (Option HitlResponse)) (used : TokenUsage) (o : RcaConclusion × Bool)
    (total : TokenUsage)
    → run_agent (rca_leg ctx pkg model) answers used seed ≡ finished o total
    → (hitl : HitlResponse) × Any (λ a. a ≡ some hitl) answers × IsDecided hitl o
analysis_decided ctx pkg model answers used o total e =
    by _ e (run_holds ctx pkg model answers used)
  where
    one :
        (p : RcaConclusion × Bool) (given : Option HitlResponse)
        → p ≡ o
        → Any (λ a. a ≡ given) (none ∷ answers)
        → Decides given p
        → (hitl : HitlResponse) × Any (λ a. a ≡ some hitl) answers × IsDecided hitl o
    one p none same g q = absurd q
    one p (some hitl) same (inl n) q = absurd (let c : ⊥ = cc in c)
    one p (some hitl) same (inr g) q = (hitl, g, subst (IsDecided hitl) same q)

    by :
        (r : Run RcaState (RcaConclusion × Bool))
        → r ≡ finished o total
        → RunHolds IsWaiting Decides left 11 none answers r
        → (hitl : HitlResponse) × Any (λ a. a ≡ some hitl) answers × IsDecided hitl o
    by r h (run_stops x t) = absurd (let c : ⊥ = cc in c)
    by r h (run_ends p t given g q) = one p given (let same : p ≡ o = cc in same) g q
    by r h (run_waits st t w m) = absurd (let c : ⊥ = cc in c)

-- However the model and the engineer answer, the conclusion that an analysis ends with, approved or
-- rejected, has a chain of three to seven whys, ranked from one, each of a source that is in the
-- vocabulary.
pub analysis_sound :
    (ctx : LegContext) (pkg : EvidencePackage) (model : ℕ → TokenUsage → Model)
    (answers : List (Option HitlResponse)) (used : TokenUsage) (o : RcaConclusion × Bool)
    (total : TokenUsage)
    → run_agent (rca_leg ctx pkg model) answers used seed ≡ finished o total
    → IsSound o.0
analysis_sound ctx pkg model answers used o total e =
    let (hitl, given, d) = analysis_decided ctx pkg model answers used o total e in d.sound
