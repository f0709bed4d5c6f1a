-- ===== src/Mar/Rules/Best.antt =====
-- packages/mar/src/rca_mar/pattern_rules.py: the highest confidence wins, ties go to the file's order.
use industrial_rca.Prelude.{
  mem_text, ℕ, ◌<◌, ◌≤◌, String, ◌≡◌, refl, ap, ◌∙◌, ◌⊎◌, inl, inr, true, false, Option, none, some,
  List, [], ◌∷◌, ◌++◌, arith, All, Option-cases, Bool-cases, ltb→lt, some_unique, subst,
}
use industrial_rca.Mar.Rules.{
  PatternRule, RuleMatch, hit_of, beats, better, rules_loop, apply_rules, applied, value_error,
  applies_to_words,
}

-- The rule's match, if it has one, has a confidence that is at most, or below, a bound.
abbrev pub AtMost : ℕ → Option RuleMatch → Type 0
AtMost n none = Unit
AtMost n (some m) = m.confidence ≤ n

abbrev pub Below : ℕ → Option RuleMatch → Type 0
Below n none = Unit
Below n (some m) = m.confidence < n

better_yes :
    (best : Option RuleMatch) (x : RuleMatch)
    → beats x.confidence best ≡ true
    → better best (some x) ≡ some x
unfolding better
better_yes best x h = rw h

better_no :
    (best : Option RuleMatch) (x : RuleMatch)
    → beats x.confidence best ≡ false
    → better best (some x) ≡ best
unfolding better
better_no best x h = rw h

beats-Below : (n : ℕ) (best : Option RuleMatch) → beats n best ≡ true → Below n best
beats-Below n none h = tt
beats-Below n (some m) h = ltb→lt m.confidence n h

Below-trans : (n k : ℕ) (best : Option RuleMatch) → Below n best → n < k → Below k best
Below-trans n k none b h = tt
Below-trans n k (some m) b h = omega arith

not_beats-le :
    (n : ℕ) (best : Option RuleMatch) (m : RuleMatch)
    → beats n best ≡ false
    → best ≡ some m
    → n ≤ m.confidence
not_beats-le n none m h e = cc
not_beats-le n (some b) m h e = subst (λ z. n ≤ z.confidence) (some_unique refl e) (ground arith)

not_beats-lt : (n k : ℕ) (best : Option RuleMatch) → beats n best ≡ false → Below k best → n < k
not_beats-lt n k none h b = cc
not_beats-lt n k (some m) h b = ground arith

module _ (value applies_to : String) where
  -- Where the winner stands in the file.
  abbrev pub Wins : RuleMatch → List PatternRule → Type 0
  Wins m rules =
      (front : List PatternRule) × (rule : PatternRule) × (back : List PatternRule) × (rules
        ≡ front ++ rule ∷ back)
      × (hit_of value applies_to rule ≡ some m)
      × All (λ r. Below m.confidence (hit_of value applies_to r)) front
      × All (λ r. AtMost m.confidence (hit_of value applies_to r)) back

  loop-Wins :
      (best : Option RuleMatch) (rules : List PatternRule) (m : RuleMatch)
      → rules_loop value applies_to best rules ≡ some m
      → ((best ≡ some m) × All (λ r. AtMost m.confidence (hit_of value applies_to r)) rules)
        ⊎ (Below m.confidence best × Wins m rules)
  unfolding rules_loop better
  loop-Wins best [] m h = inl (h, tt)
  loop-Wins best (rule ∷ rules) m h = elim (Option-cases (hit_of value applies_to rule)) [
    | inl e ↦ elim (loop-Wins best rules m (rw (e, better) at h)) [
      | inl (b, all) ↦ inl (b, (rw e tt, all))
      | inr (b, (f, r, k, q, w, fs, ks)) ↦
          inr (b, (rule ∷ f, r, k, ap (◌∷◌ rule) q, w, (rw e tt, fs), ks))
    ]
    | inr (x, e) ↦ elim (Bool-cases (beats x.confidence best)) [
      | inl y ↦ elim (loop-Wins (some x) rules m (rw (e, better_yes best x y) at h)) [
        | inl (b, all) ↦ inr (
          subst (λ z. Below z.confidence best) (some_unique refl b)
              (beats-Below x.confidence best y),
          ([], rule, rules, refl, e ∙ b, tt, all),
        )
        | inr (b, (f, r, k, q, w, fs, ks)) ↦ inr (
          Below-trans x.confidence m.confidence best (beats-Below x.confidence best y) b,
          (rule ∷ f, r, k, ap (◌∷◌ rule) q, w, (rw e b, fs), ks),
        )
      ]
      | inr n ↦ elim (loop-Wins best rules m (rw (e, better_no best x n) at h)) [
        | inl (b, all) ↦ inl (b, (rw e (not_beats-le x.confidence best m n b), all))
        | inr (b, (f, r, k, q, w, fs, ks)) ↦ inr (
          b,
          (
            rule ∷ f,
            r,
            k,
            ap (◌∷◌ rule) q,
            w,
            (rw e (not_beats-lt x.confidence m.confidence best n b), fs),
            ks,
          ),
        )
      ]
    ]
  ]

  loop_keeps :
      (best : Option RuleMatch) (rules : List PatternRule)
      → rules_loop value applies_to best rules ≡ none
      → (best ≡ none) × All (λ r. hit_of value applies_to r ≡ none) rules
  unfolding rules_loop better
  loop_keeps best [] h = (h, tt)
  loop_keeps best (rule ∷ rules) h = elim (Option-cases (hit_of value applies_to rule)) [
    | inl e ↦ let (b, all) = loop_keeps best rules (rw (e, better) at h) in (b, (e, all))
    | inr (x, e) ↦ elim (Bool-cases (beats x.confidence best)) [
      | inl y ↦
          let (b, all) = loop_keeps (some x) rules (rw (e, better_yes best x y) at h) in
          absurd (full x b)
      | inr n ↦
          let (b, all) = loop_keeps best rules (rw (e, better_no best x n) at h) in
          absurd (empty x b n)
    ]
  ]
    where
      full : (x : RuleMatch) → some x ≡ none → ⊥
      full x q = cc

      empty : (x : RuleMatch) → best ≡ none → beats x.confidence best ≡ false → ⊥
      empty x q n = let n' : true ≡ false = rw q at n in cc

  ran :
      (rules : List PatternRule) (o : Option RuleMatch)
      → apply_rules value applies_to rules ≡ applied o
      → rules_loop value applies_to none rules ≡ o
  unfolding apply_rules
  ran rules o h = elim (Bool-cases (mem_text applies_to applies_to_words)) [
    | inl y ↦
        let h' : applied (rules_loop value applies_to none rules) ≡ applied o = rw y at h in cc
    | inr n ↦ let h' : value_error ≡ applied o = rw n at h in cc
  ]

  -- When `apply_rules` answers a match, it is the match of a rule of the file: every rule before it
  -- that matches has a lower confidence and every rule after it that matches has at most its own.
  pub apply_rules_best :
      (rules : List PatternRule) (m : RuleMatch)
      → apply_rules value applies_to rules ≡ applied (some m)
      → Wins m rules
  apply_rules_best rules m h = elim (loop-Wins none rules m (ran rules (some m) h)) [
    | inl (b, _) ↦ absurd (nothing b)
    | inr (_, w) ↦ w
  ]
    where
      nothing : none ≡ some m → ⊥
      nothing b = cc

  -- `apply_rules` answers that there is no match only when no rule matches.
  pub apply_rules-none :
      (rules : List PatternRule)
      → apply_rules value applies_to rules ≡ applied none
      → All (λ r. hit_of value applies_to r ≡ none) rules
  apply_rules-none rules h = (loop_keeps none rules (ran rules none h)).1
