-- ===== src/Mqtt/Sparkplug/Varints.antt =====
-- packages/connectors/mqtt/src/rca_connector_mqtt/sparkplug.py: `_read_varint` reads what `_varint`
-- writes.
use industrial_rca.Prelude.{
  ℕ, zero, suc, ◌+◌, ◌*◌, ◌/◌, ◌%◌, ◌^◌, ◌≤◌, ◌<◌, ◌≡◌, ap, ◌∙◌, List, [], ◌∷◌, ◌++◌, arith, ltb,
  inl, inr, Bool-cases,
}
use native.Mathlib.Nat.{div-add-mod}
use native.Mathlib.Numerals.{towards_suc}
use industrial_rca.Mqtt.Sparkplug.{ok}
use industrial_rca.Mqtt.Sparkplug.Encode.{varint_loop, varint}
use industrial_rca.Mqtt.Sparkplug.Decode.{read_loop, read_varint}

loop_last : (f n : ℕ) → n < 128 → varint_loop (suc f) n ≡ n ∷ []
unfolding varint_loop
loop_last f n h = ground arith

loop_more : (f n : ℕ) → 128 ≤ n → varint_loop (suc f) n ≡ (n % 128 + 128) ∷ varint_loop f (n / 128)
unfolding varint_loop
loop_more f n h = ground arith

read_last :
    (n total shift : ℕ) (rest : List ℕ)
    → n < 128
    → read_loop (n ∷ rest) total shift ≡ ok (total + n * 2 ^ shift, rest)
unfolding read_loop
read_last n total shift rest h = ground arith

read_more :
    (g total shift : ℕ) (rest : List ℕ)
    → g < 128
    → shift + 7 ≤ 63
    → read_loop ((g + 128) ∷ rest) total shift ≡ read_loop rest (total + g * 2 ^ shift) (shift + 7)
unfolding read_loop
read_more g total shift rest h b = ground arith

seven_bits : (s : ℕ) → 2 ^ (s + 7) ≡ 128 * 2 ^ s
seven_bits s = simp towards_suc (omega arith)

next_power : (k : ℕ) → 128 ^ suc k ≡ 128 * 128 ^ k
next_power k = omega arith

low_group : (n s : ℕ) → n % 128 * 2 ^ s + n / 128 * 2 ^ (s + 7) ≡ n * 2 ^ s
low_group n s = omega (
  arith,
  ap (λ (t : ℕ). t * 2 ^ s) (div-add-mod n 128),
  ap (λ (t : ℕ). n / 128 * t) (seven_bits s),
)

-- `k` more bytes are within the bound of the shift.
read-varint_loop :
    (k f n total shift : ℕ) (rest : List ℕ)
    → n < f
    → n < 128 ^ suc k
    → shift + 7 * k ≤ 63
    → read_loop (varint_loop f n ++ rest) total shift ≡ ok (total + n * 2 ^ shift, rest)
read-varint_loop k zero n total shift rest l b s = absurd (omega arith)
read-varint_loop zero (suc f) n total shift rest l b s =
    rw (loop_last f n (omega arith)) (read_last n total shift rest (omega arith))
read-varint_loop (suc k) (suc f) n total shift rest l b s = elim (Bool-cases (ltb n 128)) [
  | inl y ↦ let h : n < 128 = ground arith in rw (loop_last f n h) (read_last n total shift rest h)
  | inr z ↦
      let h : 128 ≤ n = ground arith in
      rw (loop_more f n h) (
        read_more (n % 128) total shift (varint_loop f (n / 128) ++ rest) (omega arith)
          (omega arith)
        ∙ read-varint_loop k f (n / 128) (total + n % 128 * 2 ^ shift) (shift + 7) rest
            (omega arith) (omega (arith, next_power (suc k))) (omega arith)
        ∙ ap (λ t. ok (t, rest)) (omega (arith, low_group n shift)))
]

-- A number below 2 to the 64th is read back, with whatever follows it.
pub read_varint-varint :
    (n : ℕ) (rest : List ℕ) → n < 2 ^ 64 → read_varint (varint n ++ rest) ≡ ok (n, rest)
unfolding read_varint varint
read_varint-varint n rest h =
    read-varint_loop 9 (suc n) n 0 0 rest (omega arith) (omega arith) (omega arith)
    ∙ ap (λ t. ok (t, rest)) (omega arith)
