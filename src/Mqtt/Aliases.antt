-- ===== src/Mqtt/Aliases.antt =====
-- packages/connectors/mqtt/src/rca_connector_mqtt/uns_service.py: equality of the aliases, which are
-- the keys of a dictionary.

use industrial_rca.Prelude.{
  ℕ, Bool, true, false, ◌&&◌, List, [], ◌∷◌, ◌==◌, string_eq, Eq, ◌≡◌, ◌↔◌, refl, ap, ap₂, subst,
  arith,
}
use industrial_rca.Mqtt.Sparkplug.{FieldValue, number, raw}

-- Python's `==` on the aliases, which are the keys of a dictionary.
abbrev bytes_eq : List ℕ → List ℕ → Bool
bytes_eq [] [] = true
bytes_eq (a ∷ xs) (b ∷ ys) = (a == b) && bytes_eq xs ys
bytes_eq _ _ = false

bytes_eq_refl : (a : List ℕ) → bytes_eq a a ≡ true
bytes_eq_refl [] = refl
bytes_eq_refl (a ∷ xs) = ground (arith, bytes_eq_refl xs)

bytes_eq→≡ : (a b : List ℕ) → bytes_eq a b ≡ true → a ≡ b
bytes_eq→≡ [] [] h = refl
bytes_eq→≡ [] (b ∷ ys) h = cc
bytes_eq→≡ (a ∷ xs) [] h = cc
bytes_eq→≡ (a ∷ xs) (b ∷ ys) h =
    let head : a ≡ b = ground arith in
    let tail : bytes_eq xs ys ≡ true = ground arith in ap₂ ◌∷◌ head (bytes_eq→≡ xs ys tail)

abbrev alias_beq : FieldValue → FieldValue → Bool
alias_beq (number a) (number b) = a == b
alias_beq (raw a) (raw b) = bytes_eq a b
alias_beq _ _ = false

alias_beq_refl : (a : FieldValue) → alias_beq a a ≡ true
alias_beq_refl (number a) = ground arith
alias_beq_refl (raw a) = bytes_eq_refl a

alias_beq→≡ : (a b : FieldValue) → alias_beq a b ≡ true → a ≡ b
alias_beq→≡ (number a) (number b) h = ap number (let q : a ≡ b = ground arith in q)
alias_beq→≡ (raw a) (raw b) h = ap raw (bytes_eq→≡ a b h)
alias_beq→≡ (number a) (raw b) h = cc
alias_beq→≡ (raw a) (number b) h = cc

pub alias_beq_iff : (a b : FieldValue) → (alias_beq a b ≡ true) ↔ (a ≡ b)
alias_beq_iff a b = (alias_beq→≡ a b, λ q. subst (λ c. alias_beq a c ≡ true) q (alias_beq_refl a))

instance abbrev pub alias_eq : Eq FieldValue
alias_eq = record { beq = alias_beq; beq_iff = alias_beq_iff }
