-- ===== src/Agents/Analysis/Vocabulary.antt =====
-- packages/agents/src/rca_agents/rca_graph.py: what `_build_conclusion` makes fits the vocabularies of
-- packages/contracts/src/rca_contracts/rca.py, and what `_validate` notes.
use industrial_rca.Agents.Contracts.{text_or, option_or, or_else}
use industrial_rca.Agents.Analysis.{
  LegContext, RawCategory, RawHypothesis, RawAction, WhyStep, RankedHypothesis, RcaConclusion, Bool,
  EvidencePackage, RankReply,
}
use industrial_rca.Agents.Analysis.Words.{
  one_of-mem, answer_sources, fishbone_categories, priorities,
}
use industrial_rca.Agents.Analysis.Conclusion.{
  hyp, alternatives, category_of, fw_step, actions_of, other_mechanism, build_conclusion,
  valid_mechanisms,
}
use industrial_rca.Agents.Analysis.Whys.{IsSourced}
use industrial_rca.Prelude.{
  ℕ, suc, String, true, ◌≡◌, refl, List, [], ◌∷◌, map, mem_text, str_eq, All, eq_refl, Bool-cases,
  inl, inr, ◌||◌, false,
}

abbrev HasRank : ℕ → List RankedHypothesis → Type 0
HasRank n [] = Unit
HasRank n (h ∷ hyps) = (h.rank ≡ n) × HasRank (suc n) hyps

-- The ontology's mechanism, or the one that stands for any other; without an ontology, any.
abbrev pub Fits : List String → RankedHypothesis → Type 0
Fits [] h = Unit
Fits (m ∷ vocab) h = mem_text h.iso14224_mechanism (other_mechanism ∷ m ∷ vocab) ≡ true

-- Every word is of its vocabulary, and the hypotheses are ranked from one.
pub record IsTyped (vocab : List String) (c : RcaConclusion) : Type 0 where
  pub categories : All (λ x. mem_text x.category fishbone_categories ≡ true) c.fishbone
  pub action_priorities : All (λ x. mem_text x.priority priorities ≡ true) c.recommended_actions
  pub sources : All (λ x. mem_text x.answer_source answer_sources ≡ true) c.five_whys.steps
  pub ranks : HasRank 1 (c.primary_hypothesis ∷ c.alternative_hypotheses)
  pub mechanisms : All (Fits vocab) (c.primary_hypothesis ∷ c.alternative_hypotheses)

method-mem : mem_text "Method" fishbone_categories ≡ true
unfolding mem_text
method-mem = refl

monitor-mem : mem_text "monitor" priorities ≡ true
unfolding mem_text
monitor-mem = refl

categories_of :
    (ctx : LegContext) (raw : List RawCategory)
    → All (λ x. mem_text x.category fishbone_categories ≡ true) (map (category_of ctx) raw)
unfolding category_of
categories_of ctx [] = tt
categories_of ctx (c ∷ raw) = (
  one_of-mem ctx (option_or c.category c.name) fishbone_categories "Method" method-mem,
  categories_of ctx raw,
)

priorities_of :
    (ctx : LegContext) (raw : List RawAction)
    → All (λ x. mem_text x.priority priorities ≡ true) (actions_of ctx raw)
unfolding actions_of
priorities_of ctx [] = tt
priorities_of ctx (a ∷ raw) =
    elim (Bool-cases
      (str_eq (text_or (option_or (option_or a.action a.recommendation) a.description) "") "")) [
        | inl y ↦ rw (y, actions_of) (priorities_of ctx raw)
        | inr n ↦
            rw (n, actions_of)
              (one_of-mem ctx a.priority priorities "monitor" monitor-mem, priorities_of ctx raw)
      ]

sources_of :
    (steps : List WhyStep)
    → All IsSourced steps
    → All (λ x. mem_text x.answer_source answer_sources ≡ true) (map fw_step steps)
unfolding fw_step
sources_of [] h = tt
sources_of (s ∷ steps) h = (h.0, sources_of steps h.1)

ranks_of :
    (n : ℕ) (vocab : List String) (raw : List RawHypothesis) → HasRank n (alternatives n vocab raw)
unfolding alternatives hyp
ranks_of n vocab [] = tt
ranks_of n vocab (h ∷ raw) = (refl, ranks_of (suc n) vocab raw)

mem_text-head : (x : String) (words : List String) → mem_text x (x ∷ words) ≡ true
unfolding mem_text
mem_text-head x words = rw (eq_refl x) refl

mem_text-tail :
    (x y : String) (words : List String) → mem_text x words ≡ true → mem_text x (y ∷ words) ≡ true
unfolding mem_text
mem_text-tail x y words h = rw h (or_true (str_eq x y))
  where
    or_true : (b : Bool) → (b || true) ≡ true
    or_true true = refl
    or_true false = refl

hyp-Fits : (vocab : List String) (raw : RawHypothesis) (rank : ℕ) → Fits vocab (hyp raw rank vocab)
unfolding hyp
hyp-Fits [] raw rank = tt
hyp-Fits (m ∷ vocab) raw rank =
    elim (Bool-cases (mem_text (or_else raw.iso14224_mechanism other_mechanism) (m ∷ vocab))) [
      | inl y ↦
          rw (y, hyp)
            (mem_text-tail (or_else raw.iso14224_mechanism other_mechanism) other_mechanism
              (m ∷ vocab) y)
      | inr n ↦ rw (n, hyp) (mem_text-head other_mechanism (m ∷ vocab))
    ]

all_fit :
    (n : ℕ) (vocab : List String) (raw : List RawHypothesis)
    → All (Fits vocab) (alternatives n vocab raw)
unfolding alternatives
all_fit n vocab [] = tt
all_fit n vocab (h ∷ raw) = (hyp-Fits vocab h n, all_fit (suc n) vocab raw)

-- Whatever the model answers, over a chain whose sources are in the vocabulary the conclusion has only
-- words that its types admit: categories, priorities, sources and, where the ontology has mechanisms,
-- mechanisms of it or "other"; its hypotheses are ranked from one.
pub build_conclusion-IsTyped :
    (ctx : LegContext) (pkg : EvidencePackage) (regen_count : ℕ) (raw : List RawCategory)
    (steps : List WhyStep) (ranked : RankReply)
    → All IsSourced steps
    → IsTyped
        (valid_mechanisms pkg.applicable_failure_modes)
        (build_conclusion ctx pkg regen_count raw steps ranked)
unfolding build_conclusion
build_conclusion-IsTyped ctx pkg regen_count raw steps ranked h =
    let vocab = valid_mechanisms pkg.applicable_failure_modes in
    record {
      categories = categories_of ctx raw;
      action_priorities = priorities_of ctx ranked.recommended_actions;
      sources = sources_of steps h;
      ranks = unfold hyp in (refl, ranks_of 2 vocab ranked.alternative_hypotheses);
      mechanisms = (
        hyp-Fits vocab ranked.primary_hypothesis 1,
        all_fit 2 vocab ranked.alternative_hypotheses,
      );
    }
