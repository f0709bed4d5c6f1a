-- ===== src/Agents/Planning/Baseline.antt =====
-- packages/agents/src/rca_agents/planning_graph.py: the baseline that `_coerce_steps` guarantees.
use industrial_rca.Prelude.{
  ℕ, suc, String, Bool, true, false, not, ◌||◌, ◌≡◌, refl, ap, ◌∙◌, sym, subst, List, [], ◌∷◌, ◌++◌,
  map, keep_if, keep_if_no, keep_if_yes, All, map-All, mem_text, str_eq, eq_refl, arith, inl, inr,
  Bool-cases,
}
use industrial_rca.Agents.Planning.{
  DraftStep, StepIds, drafted_steps, DefaultStep, default_steps, type_of_step, added_steps,
  coerce_steps,
}

abbrev draft_type : DraftStep → String
draft_type s = s.step_type

abbrev default_type : DefaultStep → String
default_type d = d.step_type

drafted_types :
    (ids : StepIds) (version i : ℕ) (raw : List DraftStep)
    → map type_of_step (drafted_steps ids version i raw) ≡ map draft_type raw
unfolding drafted_steps
drafted_types ids version i [] = refl
drafted_types ids version i (s ∷ raw) = ap (◌∷◌ s.step_type) (drafted_types ids version (suc i) raw)

added_types :
    (ids : StepIds) (version : ℕ) (present : List String) (j : ℕ) (defaults : List DefaultStep)
    → map type_of_step (added_steps ids version present j defaults)
      ≡ keep_if (λ t. not (mem_text t present)) (map default_type defaults)
unfolding added_steps
added_types ids version present j [] = unfold keep_if in refl
added_types ids version present j (d ∷ defaults) =
    elim (Bool-cases (mem_text d.step_type present)) [
      | inl y ↦
          rw (y, added_steps)
            (added_types ids version present (suc j) defaults
              ∙ sym (
                  keep_if_no (λ t. not (mem_text t present)) d.step_type (map default_type defaults)
                    (ap not y)))
      | inr n ↦
          rw (n, added_steps)
            (ap (◌∷◌ d.step_type) (added_types ids version present (suc j) defaults)
              ∙ sym (
                  keep_if_yes (λ t. not (mem_text t present)) d.step_type
                    (map default_type defaults) (ap not n)))
    ]

map-append {ℓ κ} :
    {A : Type ℓ} {B : Type κ} (f : A → B) (xs ys : List A) → map f (xs ++ ys) ≡ map f xs ++ map f ys
map-append f [] ys = refl
map-append f (x ∷ xs) ys = ap (◌∷◌ (f x)) (map-append f xs ys)

mem_text-append :
    (t : String) (xs ys : List String) → mem_text t (xs ++ ys) ≡ (mem_text t xs || mem_text t ys)
unfolding mem_text
mem_text-append t [] ys = refl
mem_text-append t (x ∷ xs) ys = ground (arith, mem_text-append t xs ys)

abbrev AllIn : List String → List String → List String → Type 0
AllIn present kept = All (λ t. mem_text t (present ++ kept) ≡ true)

-- Every text is present, or is kept because it is not.
all_there :
    (present texts : List String)
    → All (λ t. mem_text t (present ++ keep_if (λ u. not (mem_text u present)) texts) ≡ true) texts
unfolding mem_text
all_there present [] = tt
all_there present (t ∷ texts) =
    let kept = keep_if (λ u. not (mem_text u present)) in
    elim (Bool-cases (mem_text t present)) [
      | inl y ↦
          subst (λ ks. AllIn present ks (t ∷ texts))
            (sym (keep_if_no (λ u. not (mem_text u present)) t texts (ap not y)))
            (mem_text-append t present (kept texts) ∙ rw y refl, all_there present texts)
      | inr n ↦
          subst (λ ks. AllIn present ks (t ∷ texts))
            (sym (keep_if_yes (λ u. not (mem_text u present)) t texts (ap not n)))
            (
              mem_text-append t present (t ∷ kept texts) ∙ rw n (rw (eq_refl t) refl),
              map-All _ _ texts
                  (λ u h.
                    mem_text-append u present (t ∷ kept texts)
                    ∙ later u (mem_text u present) (str_eq u t) (mem_text u (kept texts))
                        (sym (mem_text-append u present (kept texts)) ∙ h))
                  (all_there present texts),
            )
    ]
  where
    later : (u : String) (a b c : Bool) → (a || c) ≡ true → (a || (b || c)) ≡ true
    later u true b c h = refl
    later u false true c h = refl
    later u false false c h = h

-- Whatever the model drafts, the steps of the plan are of the types of its draft, in order, followed
-- by those of the five baseline types that the draft does not have; so each baseline type has a step.
pub coerce_steps_cover :
    (ids : StepIds) (version : ℕ) (raw : List DraftStep)
    → let baseline = map (λ d. d.step_type) default_steps in
      let types = map (λ s. s.step_type) (coerce_steps ids version raw) in
      let drafted = map (λ s. s.step_type) raw in
      (types ≡ drafted ++ keep_if (λ t. not (mem_text t drafted)) baseline)
      × All (λ t. mem_text t types ≡ true) baseline
unfolding coerce_steps
coerce_steps_cover ids version raw =
    let steps = drafted_steps ids version 0 raw in
    let drafted = map draft_type raw in
    let e : map type_of_step (coerce_steps ids version raw)
        ≡ drafted ++ keep_if (λ t. not (mem_text t drafted)) (map default_type default_steps) =
      map-append type_of_step steps
        (added_steps ids version (map type_of_step steps) 0 default_steps)
      ∙ ap (λ t. map type_of_step steps ++ t)
          (added_types ids version (map type_of_step steps) 0 default_steps)
      ∙ ap (λ t. t ++ keep_if (λ u. not (mem_text u t)) (map default_type default_steps))
          (drafted_types ids version 0 raw) in
    (
      e,
      subst (λ ts. All (λ t. mem_text t ts ≡ true) (map default_type default_steps)) (sym e)
          (all_there drafted (map default_type default_steps)),
    )
