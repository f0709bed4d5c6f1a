-- ===== src/Agents/Analysis/Validation.antt =====
-- packages/agents/src/rca_agents/rca_graph.py, `_validate`: when no error is noted.
use industrial_rca.Agents.Analysis.{RankedHypothesis, RcaConclusion}
use industrial_rca.Agents.Analysis.Conclusion.{
  unknown_modes, any_above, noted, validation_errors, min_five_whys,
}
use industrial_rca.Prelude.{
  ℕ, ◌≤◌, String, Bool, true, false, ◌≡◌, ◌↔◌, refl, List, [], ◌∷◌, ◌++◌, length, mem_text, All,
  arith, Bool-cases, inl, inr, ltb,
}

-- The ontology has the failure mode, if there is an ontology.
abbrev pub Known : List String → RankedHypothesis → Type 0
Known [] h = Unit
Known (v ∷ codes) h = mem_text h.iso14224_failure_mode (v ∷ codes) ≡ true

-- What a conclusion without an error has.
pub record IsClean (codes : List String) (c : RcaConclusion) : Type 0 where
  pub known : All (Known codes) (c.primary_hypothesis ∷ c.alternative_hypotheses)
  pub highest : All (λ h. h.confidence ≤ c.primary_hypothesis.confidence) c.alternative_hypotheses
  pub deep : min_five_whys ≤ length c.five_whys.steps
  pub wide : 3 ≤ length c.fishbone
  pub active : 1 ≤ length c.recommended_actions

unknown_modes_iff :
    (codes : List String) (hyps : List RankedHypothesis)
    → (unknown_modes codes hyps ≡ []) ↔ All (Known codes) hyps
unfolding unknown_modes
unknown_modes_iff codes [] = (λ e. tt, λ k. refl)
unknown_modes_iff [] (h ∷ hyps) =
    (λ e. (tt, (unknown_modes_iff [] hyps).0 e), λ k. (unknown_modes_iff [] hyps).1 k.1)
unknown_modes_iff (v ∷ codes) (h ∷ hyps) =
    elim (Bool-cases (mem_text h.iso14224_failure_mode (v ∷ codes))) [
      | inl y ↦
          rw (y, unknown_modes)
            (
              λ e. (refl, (unknown_modes_iff (v ∷ codes) hyps).0 e),
              λ k. (unknown_modes_iff (v ∷ codes) hyps).1 k.1,
            )
      | inr n ↦
          rw (n, unknown_modes)
            (λ e. absurd (let b : ⊥ = cc in b), λ k. absurd (let b : ⊥ = cc (k.0) in b))
    ]

above_iff :
    (confidence : ℕ) (hyps : List RankedHypothesis)
    → (any_above confidence hyps ≡ false) ↔ All (λ h. h.confidence ≤ confidence) hyps
unfolding any_above
above_iff confidence [] = (λ e. tt, λ k. refl)
above_iff confidence (h ∷ hyps) =
    (λ e. ground (arith, above_iff confidence hyps), λ k. ground (arith, above_iff confidence hyps))

noted_iff : (test : Bool) (message : String) → (noted test message ≡ []) ↔ (test ≡ false)
noted_iff true message = (λ e. absurd (let b : ⊥ = cc in b), λ e. absurd (let b : ⊥ = cc in b))
noted_iff false message = (λ e. refl, λ e. refl)

both_empty {ℓ} : {A : Type ℓ} (xs ys : List A) → (xs ++ ys ≡ []) ↔ ((xs ≡ []) × (ys ≡ []))
both_empty [] ys = (λ e. (refl, e), λ k. k.1)
both_empty (x ∷ xs) ys =
    (λ e. absurd (let b : ⊥ = cc in b), λ k. absurd (let b : ⊥ = cc (k.0) in b))

not_ltb : (a b : ℕ) → ltb a b ≡ false → b ≤ a
not_ltb a b h = ground arith

le→not_ltb : (a b : ℕ) → b ≤ a → ltb a b ≡ false
le→not_ltb a b h = ground arith

to_clean :
    (c : RcaConclusion) (codes : List String) → validation_errors c codes ≡ [] → IsClean codes c
unfolding validation_errors
to_clean c codes e =
    let (k, e1) = (both_empty _ _).0 e in
    let (a, e2) = (both_empty _ _).0 e1 in
    let (d, e3) = (both_empty _ _).0 e2 in
    let (w, v) = (both_empty _ _).0 e3 in
    let few_whys : ltb (length c.five_whys.steps) min_five_whys ≡ false =
      (noted_iff _ "five_whys has < 3 steps").0 d in
    let narrow : ltb (length c.fishbone) 3 ≡ false =
      (noted_iff _ "fishbone has < 3 populated categories").0 w in
    let idle : ltb (length c.recommended_actions) 1 ≡ false =
      (noted_iff _ "recommended_actions is empty").0 v in
    record {
      known = (unknown_modes_iff codes (c.primary_hypothesis ∷ c.alternative_hypotheses)).0 k;
      highest =
          (above_iff _ _).0
            ((noted_iff _ "a primary hypothesis confidence is below an alternative's").0 a);
      deep = not_ltb _ _ few_whys;
      wide = not_ltb _ _ narrow;
      active = not_ltb _ _ idle;
    }

to_empty :
    (c : RcaConclusion) (codes : List String) → IsClean codes c → validation_errors c codes ≡ []
unfolding validation_errors
to_empty c codes k = (both_empty _ _).1 (
  (unknown_modes_iff codes (c.primary_hypothesis ∷ c.alternative_hypotheses)).1 k.known,
  (both_empty _ _).1 (
    (noted_iff _ "a primary hypothesis confidence is below an alternative's").1
        ((above_iff _ _).1 k.highest),
    (both_empty _ _).1 (
      (noted_iff _ "five_whys has < 3 steps").1 (le→not_ltb _ _ k.deep),
      (both_empty _ _).1 (
        (noted_iff _ "fishbone has < 3 populated categories").1 (le→not_ltb _ _ k.wide),
        (noted_iff _ "recommended_actions is empty").1 (le→not_ltb _ _ k.active),
      ),
    ),
  ),
)

-- No error is noted exactly when the ontology, if there is one, has the failure mode of every hypothesis,
-- no alternative is more confident than the primary, and there are three whys, three entries in the
-- fishbone and an action at least. The entries may be without causes or of one category.
pub validation_errors_iff :
    (c : RcaConclusion) (codes : List String) → (validation_errors c codes ≡ []) ↔ IsClean codes c
validation_errors_iff c codes = (to_clean c codes, to_empty c codes)
