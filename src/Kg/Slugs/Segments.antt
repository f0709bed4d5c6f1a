-- ===== src/Kg/Slugs/Segments.antt =====
-- packages/kg/src/rca_kg/slugs.py: what a slug looks like, and that a slug is its own slug.
use Prim.Native.Char.{Char, code}
use Prim.Native.String.{String}
use text.Mathlib.TextEquality.{Char-path}
use industrial_rca.Prelude.{
  Bool, true, false, ◌&&◌, not, ◌≡◌, refl, ap, ◌∙◌, ◌⊎◌, inl, inr, arith, Bool-cases, ◌==◌, sym,
  if◌then◌else◌, ==_iff,
}
use industrial_rca.Kg.Slugs.{
  lower, lower_char, is_word, dash_runs, strip_left, strip_right, is_empty, slug,
}

-- Words apart by single dashes; the flag says that no dash may come next.
runs : Bool → String → Bool
runs after String.[] = true
runs after (String.◌∷◌ c s) =
    let word = runs false s in
    let dash = runs true s in if is_word c then word else (code c == b'-') && (not after && dash)

-- The same, and the last character is no dash.
pub segment : Bool → String → Bool
segment after String.[] = not after
segment after (String.◌∷◌ c s) =
    let word = segment false s in
    let dash = segment true s in if is_word c then word else (code c == b'-') && (not after && dash)

-- Empty, or words of a to z and 0 to 9 apart by single dashes.
abbrev pub IsSegment : String → Type 0
IsSegment s = (s ≡ "") ⊎ (segment true s ≡ true)

and-parts : (x y : Bool) → x && y ≡ true → (x ≡ true) × (y ≡ true)
and-parts true y h = (refl, h)
and-parts false y h = cc

of_not : (a : Bool) → not a ≡ true → a ≡ false
of_not false h = refl
of_not true h = cc

word_not_dash : (c : Char) → is_word c ≡ true → (code c == b'-') ≡ false
unfolding is_word
word_not_dash c h = ground arith

dash_not_word : (c : Char) → (code c == b'-') ≡ true → is_word c ≡ false
unfolding is_word
dash_not_word c h = ground arith

-- A character of a run is of a word, or a dash that may come here.
abbrev RunStep : (Bool → String → Bool) → Bool → Char → String → Type 0
RunStep p a c s =
    ((is_word c ≡ true) × ((code c == b'-') ≡ false) × (p false s ≡ true))
    ⊎ ((is_word c ≡ false) × ((code c == b'-') ≡ true) × (a ≡ false) × (p true s ≡ true))

run_step :
    (p : Bool → String → Bool) (a : Bool) (c : Char) (s : String)
    → (if is_word c then p false s else (code c == b'-') && (not a && p true s)) ≡ true
    → RunStep p a c s
run_step p a c s h = elim (Bool-cases (is_word c)) [
  | inl y ↦ inl (y, word_not_dash c y, rw y at h)
  | inr n ↦
      let (d, r) = and-parts (code c == b'-') _ (rw n at h) in
      let (b, q) = and-parts (not a) _ r in inr (n, d, of_not a b, q)
]

runs-step : (a : Bool) (c : Char) (s : String) → runs a (String.◌∷◌ c s) ≡ true → RunStep runs a c s
unfolding runs
runs-step a c s h = run_step runs a c s h

segment-step :
    (a : Bool) (c : Char) (s : String) → segment a (String.◌∷◌ c s) ≡ true → RunStep segment a c s
unfolding segment
segment-step a c s h = run_step segment a c s h

runs-word :
    (a : Bool) (c : Char) (s : String)
    → is_word c ≡ true
    → runs false s ≡ true
    → runs a (String.◌∷◌ c s) ≡ true
unfolding runs
runs-word a c s y h = rw (y, runs) h

runs-dash : (s : String) → runs true s ≡ true → runs false (String.◌∷◌ "-" s) ≡ true
unfolding runs is_word
runs-dash s h = h

segment-dash :
    (a : Bool) (c : Char) (s : String)
    → is_word c ≡ false
    → (code c == b'-') ≡ true
    → a ≡ false
    → segment true s ≡ true
    → segment a (String.◌∷◌ c s) ≡ true
unfolding segment
segment-dash a c s n d b h = rw (n, segment) (rw (d, b) h)

segment-not_empty : (s : String) → segment true s ≡ true → is_empty s ≡ false
unfolding segment is_empty
segment-not_empty String.[] h = cc
segment-not_empty (String.◌∷◌ c s) h = refl

segment-weaken : (s : String) → segment true s ≡ true → segment false s ≡ true
unfolding segment
segment-weaken String.[] h = refl
segment-weaken (String.◌∷◌ c s) h = elim (segment-step true c s h) [
  | inl (y, d, r) ↦ rw (y, segment) r
  | inr (n, d, b, r) ↦ cc
]

runs-dash_runs : (a : Bool) (s : String) → runs a (dash_runs a s) ≡ true
unfolding runs dash_runs
runs-dash_runs a String.[] = refl
runs-dash_runs a (String.◌∷◌ c s) = elim (Bool-cases (is_word c)) [
  | inl y ↦ rw (y, dash_runs) (runs-word a c _ y (runs-dash_runs false s))
  | inr n ↦ rw (n, dash_runs) (dashed a (runs-dash_runs true s))
]
  where
    dashed :
        (b : Bool)
        → runs true (dash_runs true s) ≡ true
        → runs b (if b then dash_runs true s else String.◌∷◌ "-" (dash_runs true s)) ≡ true
    dashed true h = h
    dashed false h = runs-dash (dash_runs true s) h

runs-strip_left : (a : Bool) (s : String) → runs a s ≡ true → runs true (strip_left s) ≡ true
unfolding runs strip_left
runs-strip_left a String.[] h = refl
runs-strip_left a (String.◌∷◌ c s) h = elim (runs-step a c s h) [
  | inl (y, d, r) ↦ rw (d, strip_left) (runs-word true c s y r)
  | inr (n, d, b, r) ↦ rw (d, strip_left) (runs-strip_left true s r)
]

segment-strip_right :
    (a : Bool) (s : String)
    → runs a s ≡ true
    → (strip_right s ≡ "") ⊎ (segment a (strip_right s) ≡ true)
unfolding runs segment strip_right is_empty
segment-strip_right a String.[] h = inl refl
segment-strip_right a (String.◌∷◌ c s) h = elim (runs-step a c s h) [
  | inl (y, d, r) ↦ rw (d, strip_right) (inr (worded y (segment-strip_right false s r)))
  | inr (n, d, b, r) ↦ elim (segment-strip_right true s r) [
    | inl e ↦ inl (rw (d, strip_right) (rw e refl))
    | inr g ↦
        rw (d, strip_right)
          (rw (segment-not_empty (strip_right s) g)
            (inr (segment-dash a c (strip_right s) n d b g)))
  ]
]
  where
    worded :
        is_word c ≡ true
        → (strip_right s ≡ "") ⊎ (segment false (strip_right s) ≡ true)
        → segment a (String.◌∷◌ c (strip_right s)) ≡ true
    worded y (inl e) = rw (y, segment) (rw e refl)
    worded y (inr g) = rw (y, segment) g

lower_char-segment :
    (c : Char) (s : String)
    → (is_word c ≡ true) ⊎ ((code c == b'-') ≡ true)
    → lower_char c s ≡ String.◌∷◌ c s
unfolding lower_char is_word
lower_char-segment c s (inl y) = ground arith
lower_char-segment c s (inr d) = ground arith

lower-segment : (a : Bool) (s : String) → segment a s ≡ true → lower s ≡ s
unfolding segment lower
lower-segment a String.[] h = refl
lower-segment a (String.◌∷◌ c s) h = elim (segment-step a c s h) [
  | inl (y, d, r) ↦
      lower_char-segment c (lower s) (inl y) ∙ ap (String.◌∷◌ c) (lower-segment false s r)
  | inr (n, d, b, r) ↦
      lower_char-segment c (lower s) (inr d) ∙ ap (String.◌∷◌ c) (lower-segment true s r)
]

dash_runs-segment : (a : Bool) (s : String) → segment a s ≡ true → dash_runs a s ≡ s
unfolding segment dash_runs
dash_runs-segment a String.[] h = refl
dash_runs-segment a (String.◌∷◌ c s) h = elim (segment-step a c s h) [
  | inl (y, d, r) ↦ rw (y, dash_runs) (ap (String.◌∷◌ c) (dash_runs-segment false s r))
  | inr (n, d, b, r) ↦
      rw (n, b, dash_runs)
        (ap (String.◌∷◌ "-") (dash_runs-segment true s r)
          ∙ ap (λ x. String.◌∷◌ x s) (Char-path "-" c (sym ((==_iff (code c) b'-').0 d))))
]

strip_left-segment : (s : String) → segment true s ≡ true → strip_left s ≡ s
unfolding segment strip_left
strip_left-segment String.[] h = refl
strip_left-segment (String.◌∷◌ c s) h = elim (segment-step true c s h) [
  | inl (y, d, r) ↦ rw (d, strip_left) refl
  | inr (n, d, b, r) ↦ cc
]

strip_right-segment : (a : Bool) (s : String) → segment a s ≡ true → strip_right s ≡ s
unfolding segment strip_right is_empty
strip_right-segment a String.[] h = refl
strip_right-segment a (String.◌∷◌ c s) h = elim (segment-step a c s h) [
  | inl (y, d, r) ↦ rw (d, strip_right) (ap (String.◌∷◌ c) (strip_right-segment false s r))
  | inr (n, d, b, r) ↦
      rw (d, strip_right) (rw (strip_right-segment true s r) (rw (segment-not_empty s r) refl))
]

-- Every slug is empty, or is made of words of a to z and 0 to 9 apart by single dashes.
pub slug-IsSegment : (v : String) → IsSegment (slug v)
unfolding slug
slug-IsSegment v =
    segment-strip_right true (strip_left (dash_runs false (lower v)))
      (runs-strip_left false (dash_runs false (lower v)) (runs-dash_runs false (lower v)))

slug-segment : (s : String) → segment true s ≡ true → slug s ≡ s
unfolding slug
slug-segment s h =
    ap (λ x. strip_right (strip_left (dash_runs false x))) (lower-segment true s h)
    ∙ ap (λ x. strip_right (strip_left x)) (dash_runs-segment false s (segment-weaken s h))
    ∙ ap strip_right (strip_left-segment s h)
    ∙ strip_right-segment true s h

-- A slug is its own slug.
pub slug-slug : (v : String) → slug (slug v) ≡ slug v
slug-slug v = elim (slug-IsSegment v) [
  | inl e ↦ rw e (unfold slug lower dash_runs strip_left strip_right in refl)
  | inr g ↦ slug-segment (slug v) g
]
