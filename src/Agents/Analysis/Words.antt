-- ===== src/Agents/Analysis/Words.antt =====
-- packages/agents/src/rca_agents/rca_graph.py: the vocabularies that an answer is put into, and the text
-- of a question.
use industrial_rca.Prelude.{
  String, Bool, true, false, ◌≡◌, refl, Option, none, some, List, [], ◌∷◌, str_eq, mem_text,
  eq_refl, if◌then◌else◌, Bool-cases, inl, inr, ◌||◌,
}
use industrial_rca.Agents.Analysis.{LegContext, RawQuestion}

abbrev pub question_types : List String
question_types = "clarification" ∷ "context" ∷ "scope" ∷ "approval" ∷ []

abbrev pub answer_sources : List String
answer_sources = "evidence_package" ∷ "kg" ∷ "engineer_hitl" ∷ "agent_inference" ∷ []

abbrev pub priorities : List String
priorities = "immediate" ∷ "next_shutdown" ∷ "monitor" ∷ []

abbrev pub fishbone_categories : List String
fishbone_categories =
    "Manpower" ∷ "Method" ∷ "Machine" ∷ "Material" ∷ "Measurement" ∷ "Environment" ∷ []

-- The loop of `_one_of` over the words allowed.
unfoldable pub first_alike : LegContext → String → List String → String → String
first_alike ctx value [] default = default
first_alike ctx value (a ∷ allowed) default =
    let rest = first_alike ctx value allowed default in
    if str_eq (ctx.lower (ctx.strip value)) (ctx.lower a) then a else rest

unfoldable pub one_of : LegContext → Option String → List String → String → String
unfolding first_alike
one_of ctx none allowed default = default
one_of ctx (some value) allowed default = first_alike ctx value allowed default

-- The first text that is not empty.
unfoldable pub first_text : List (Option String) → Option String
first_text [] = none
first_text (none ∷ texts) = first_text texts
first_text (some t ∷ texts) = let rest = first_text texts in if str_eq t "" then rest else some t

unfoldable pub question_text : RawQuestion → Option String
unfolding first_text
question_text q = first_text (q.text ∷ q.question ∷ q.gap ∷ q.description ∷ [])

-- Every word of a list is in it.
first_alike-mem :
    (ctx : LegContext) (value : String) (default : String) (words allowed : List String)
    → mem_text default words ≡ true
    → ((a : String) → mem_text a allowed ≡ true → mem_text a words ≡ true)
    → mem_text (first_alike ctx value allowed default) words ≡ true
unfolding first_alike mem_text
first_alike-mem ctx value default words [] d sub = d
first_alike-mem ctx value default words (a ∷ allowed) d sub =
    elim (Bool-cases (str_eq (ctx.lower (ctx.strip value)) (ctx.lower a))) [
      | inl y ↦ rw y (sub a (rw (eq_refl a) refl))
      | inr n ↦
          rw n (
            first_alike-mem ctx value default words allowed d (λ b m. sub b (right (str_eq b a) m)))
    ]
  where
    right : (x : Bool) {y : Bool} → y ≡ true → (x || y) ≡ true
    right true h = refl
    right false h = h

-- Whatever the value, the word is one of those allowed, if the default is.
pub one_of-mem :
    (ctx : LegContext) (value : Option String) (allowed : List String) (default : String)
    → mem_text default allowed ≡ true
    → mem_text (one_of ctx value allowed default) allowed ≡ true
unfolding one_of
one_of-mem ctx none allowed default d = d
one_of-mem ctx (some value) allowed default d =
    first_alike-mem ctx value default allowed allowed d (λ a m. m)

pub agent_inference-mem : mem_text "agent_inference" answer_sources ≡ true
unfolding mem_text
agent_inference-mem = refl

pub engineer_hitl-mem : mem_text "engineer_hitl" answer_sources ≡ true
unfolding mem_text
engineer_hitl-mem = refl
