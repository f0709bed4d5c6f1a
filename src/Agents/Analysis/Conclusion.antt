-- ===== src/Agents/Analysis/Conclusion.antt =====
-- packages/agents/src/rca_agents/rca_graph.py, `_build_conclusion` and `_validate`: the conclusion made of
-- what the model ranked, and the errors that are noted on it.
use Prim.Native.String.{◌++◌ as str_append}
use industrial_rca.Agents.Contracts.{
  EvidenceCitation, or_else, text_or, option_or, HitlResponse, ConclusionEdit,
}
use industrial_rca.Agents.Analysis.{
  LegContext, EvidencePackage, RawCitation, RawCause, RawCategory, RawHypothesis, RawAction,
  RawRequest, RankReply, WhyStep, FiveWhysStep, FishboneCause, FishboneCategory, RankedHypothesis,
  RecommendedAction, OpenDataRequest, EngineerEdit, RcaConclusion,
}
use industrial_rca.Agents.Analysis.Words.{one_of, fishbone_categories, priorities}
use industrial_rca.Prelude.{
  ℕ, suc, String, Bool, true, false, ◌||◌, none, some, List, [], ◌∷◌, ◌++◌, map, take, length,
  str_eq, mem_text, ltb, if◌then◌else◌,
}

abbrev pub other_mechanism : String
other_mechanism = "failure-mechanism:other"

abbrev pub min_five_whys : ℕ
min_five_whys = 3

-- `", ".join`.
unfoldable pub joined : List String → String
joined [] = ""
joined (s ∷ []) = s
joined (s ∷ t ∷ texts) = str_append s (str_append ", " (joined (t ∷ texts)))

unfoldable pub initial_problem : EvidencePackage → String
unfolding joined
initial_problem pkg =
    str_append pkg.asset_name
      (str_append ": " (text_or (some (joined (take 2 pkg.anomalies))) "developing failure"))

unfoldable pub cite : RawCitation → EvidenceCitation
cite e = record {
  section = or_else e.section "tag";
  item_id = or_else e.item_id "";
  relevance = e.relevance;
}

unfoldable pub hyp : RawHypothesis → ℕ → List String → RankedHypothesis
unfolding cite
hyp h rank valid_mechanisms =
    let mech : String = or_else h.iso14224_mechanism other_mechanism in
    record {
      rank = rank;
      iso14224_failure_mode = or_else h.iso14224_failure_mode "UNK";
      iso14224_mechanism = elim valid_mechanisms [
        | [] ↦ mech
        | ◌∷◌ m ms ↦ if mem_text mech (m ∷ ms) then mech else other_mechanism
      ];
      iso14224_cause = h.iso14224_cause;
      confidence = or_else h.confidence 5000;
      narrative = or_else h.narrative "";
      supporting_evidence = map cite h.supporting_evidence;
    }

unfoldable pub alternatives : ℕ → List String → List RawHypothesis → List RankedHypothesis
unfolding hyp
alternatives rank valid_mechanisms [] = []
alternatives rank valid_mechanisms (h ∷ hs) =
    hyp h rank valid_mechanisms ∷ alternatives (suc rank) valid_mechanisms hs

unfoldable pub cause_of : RawCause → FishboneCause
unfolding cite
cause_of x = record {
  cause = text_or (option_or (option_or x.cause x.name) x.description) "unspecified";
  sub_causes = x.sub_causes;
  supporting_evidence = map cite x.supporting_evidence;
}

unfoldable pub category_of : LegContext → RawCategory → FishboneCategory
unfolding cause_of one_of
category_of ctx c = record {
  category = one_of ctx (option_or c.category c.name) fishbone_categories "Method";
  causes = map cause_of c.causes;
}

unfoldable pub fw_step : WhyStep → FiveWhysStep
unfolding cite
fw_step s = record {
  rank = s.rank;
  why_question = s.why_question;
  answer = s.answer;
  answer_source = s.answer_source;
  supporting_evidence = map cite s.supporting_evidence;
}

unfoldable pub last_answer : List WhyStep → String
last_answer [] = "undetermined"
last_answer (s ∷ []) = s.answer
last_answer (s ∷ t ∷ steps) = last_answer (t ∷ steps)

-- An action without a text is left out.
unfoldable pub actions_of : LegContext → List RawAction → List RecommendedAction
unfolding one_of
actions_of ctx [] = []
actions_of ctx (a ∷ actions) =
    let rest = actions_of ctx actions in
    let text : String =
      text_or (option_or (option_or a.action a.recommendation) a.description) "" in
    elim (str_eq text "") [
      | true ↦ rest
      | false ↦
          record {
            action = text;
            rationale = or_else a.rationale "";
            priority = one_of ctx a.priority priorities "monitor";
            estimated_effort = a.estimated_effort;
            target = a.target;
            preconditions = a.preconditions;
          }
          ∷ rest
    ]

unfoldable pub requests_of : List RawRequest → List OpenDataRequest
requests_of [] = []
requests_of (o ∷ requests) =
    let rest = requests_of requests in
    let text : String = text_or (option_or (option_or o.request o.question) o.description) "" in
    elim (str_eq text "") [
      | true ↦ rest
      | false ↦
          record { request = text; rationale = or_else o.rationale ""; target = o.target } ∷ rest
    ]

unfoldable pub valid_mechanisms : List (String × List String) → List String
valid_mechanisms [] = []
valid_mechanisms ((code, mechanisms) ∷ modes) = mechanisms ++ valid_mechanisms modes

abbrev pub valid_codes : List (String × List String) → List String
valid_codes modes = map (λ (m : String × List String). m.0) modes

-- `raw` is the fishbone and `steps` the chain of the state.
unfoldable pub build_conclusion :
    LegContext → EvidencePackage → ℕ → List RawCategory → List WhyStep → RankReply → RcaConclusion
unfolding initial_problem hyp alternatives category_of fw_step last_answer actions_of requests_of
    valid_mechanisms
build_conclusion ctx pkg regen_count raw steps ranked =
    let vocab = valid_mechanisms pkg.applicable_failure_modes in
    let primary = hyp ranked.primary_hypothesis 1 vocab in
    record {
      conclusion_id = ctx.det_uuid ("conclusion" ∷ ctx.str regen_count ∷ []);
      evidence_package_id = pkg.evidence_package_id;
      canonical_id = pkg.canonical_id;
      primary_hypothesis = primary;
      alternative_hypotheses = alternatives 2 vocab ranked.alternative_hypotheses;
      fishbone = map (category_of ctx) raw;
      five_whys = record {
        chain_id = ctx.det_uuid ("fivewhys" ∷ []);
        initial_problem = initial_problem pkg;
        steps = map fw_step steps;
        terminal_root_cause = last_answer steps;
        confidence = primary.confidence;
      };
      recommended_actions = actions_of ctx ranked.recommended_actions;
      open_data_requests = requests_of ranked.open_data_requests;
      engineer_edits = [];
      engineer_approval_status = none;
      engineer_notes = none;
      validation_errors = [];
      generated_at = ctx.reference_time;
      finalized_at = none;
    }

-- The failure modes that the ontology does not have; an empty ontology checks none.
unfoldable pub unknown_modes : List String → List RankedHypothesis → List String
unknown_modes valid [] = []
unknown_modes valid (h ∷ hyps) =
    let rest = unknown_modes valid hyps in
    elim valid [
      | [] ↦ rest
      | ◌∷◌ v vs ↦ elim (mem_text h.iso14224_failure_mode (v ∷ vs)) [
        | true ↦ rest
        | false ↦
            str_append "failure mode " (str_append h.iso14224_failure_mode " not in KG ontology")
            ∷ rest
      ]
    ]

unfoldable pub any_above : ℕ → List RankedHypothesis → Bool
any_above confidence [] = false
any_above confidence (h ∷ hyps) = ltb confidence h.confidence || any_above confidence hyps

abbrev pub noted : Bool → String → List String
noted test message = if test then message ∷ [] else []

unfoldable pub validation_errors : RcaConclusion → List String → List String
unfolding unknown_modes any_above
validation_errors c codes =
    unknown_modes codes (c.primary_hypothesis ∷ c.alternative_hypotheses)
    ++ (noted (any_above c.primary_hypothesis.confidence c.alternative_hypotheses)
          "a primary hypothesis confidence is below an alternative's"
        ++ (noted (ltb (length c.five_whys.steps) min_five_whys) "five_whys has < 3 steps"
            ++ (noted (ltb (length c.fishbone) 3) "fishbone has < 3 populated categories"
                ++ noted (ltb (length c.recommended_actions) 1) "recommended_actions is empty")))

unfoldable pub validate : RcaConclusion → List String → RcaConclusion
unfolding validation_errors
validate c codes = record c { validation_errors = validation_errors c codes }

unfoldable pub edit_of : HitlResponse → ConclusionEdit → EngineerEdit
edit_of hitl e = record {
  field_path = e.field_path;
  after = e.after;
  edited_at = hitl.responded_at;
  engineer_notes = e.note;
}
