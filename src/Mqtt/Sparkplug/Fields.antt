-- ===== src/Mqtt/Sparkplug/Fields.antt =====
-- packages/connectors/mqtt/src/rca_connector_mqtt/sparkplug.py: `_iter_fields` reads the fields that
-- the encoders write.
use industrial_rca.Prelude.{
  ℕ, zero, suc, ◌+◌, ◌*◌, ◌/◌, ◌%◌, ◌^◌, ◌≤◌, ◌<◌, ◌≡◌, refl, ap, ◌∙◌, false, List, [], ◌∷◌, ◌++◌,
  length, length-append, take-append, drop-append, arith, ltb,
}
use mathlib.Core.List.{append_assoc}
use industrial_rca.Mqtt.Sparkplug.{ok, ◌>>=◌, number, raw, FieldValue, Result}
use industrial_rca.Mqtt.Sparkplug.Encode.{varint_loop, varint, tag, field_varint, field_len}
use industrial_rca.Mqtt.Sparkplug.Decode.{read_raw, read_sized, read_value, next_field, for_fields}
use industrial_rca.Mqtt.Sparkplug.Varints.{read_varint-varint}

-- A field behind its tag, by its wire type.
next_field-tag :
    (k wire : ℕ) (rest : List ℕ)
    → k < 2 ^ 32
    → wire < 8
    → next_field (tag k wire ++ rest)
      ≡ (read_value wire rest >>= λ (value, after). ok (k, (value, after)))
unfolding next_field tag
next_field-tag k wire rest hk hw =
    let field : (k * 8 + wire) / 8 ≡ k = omega arith in
    let kind : (k * 8 + wire) % 8 ≡ wire = omega arith in
    rw (read_varint-varint (k * 8 + wire) rest (omega arith)) (rw (field, kind) refl)

read_raw-append :
    (content rest : List ℕ) → read_raw (length content) (content ++ rest) ≡ ok (raw content, rest)
unfolding read_raw
read_raw-append content rest =
    let long : ltb (length (content ++ rest)) (length content) ≡ false =
      ground (arith, length-append content rest) in
    rw (long, take-append content rest, drop-append content rest) refl

next_field-varint :
    (k v : ℕ) (rest : List ℕ)
    → k < 2 ^ 32
    → v < 2 ^ 64
    → next_field (field_varint k v ++ rest) ≡ ok (k, (number v, rest))
unfolding field_varint read_value
next_field-varint k v rest hk hv =
    ap next_field (append_assoc (tag k 0) (varint v) rest)
    ∙ next_field-tag k 0 (varint v ++ rest) hk (omega arith)
    ∙ rw (read_varint-varint v rest hv) refl

next_field-len :
    (k : ℕ) (content rest : List ℕ)
    → k < 2 ^ 32
    → length content < 2 ^ 64
    → next_field (field_len k content ++ rest) ≡ ok (k, (raw content, rest))
unfolding field_len read_value read_sized
next_field-len k content rest hk hl =
    ap next_field (
      append_assoc (tag k 2) (varint (length content) ++ content) rest
      ∙ ap (λ t. tag k 2 ++ t) (append_assoc (varint (length content)) content rest))
    ∙ next_field-tag k 2 (varint (length content) ++ (content ++ rest)) hk (omega arith)
    ∙ rw (read_varint-varint (length content) (content ++ rest) hl)
        (rw (read_raw-append content rest) refl)

next_field_eight :
    (k : ℕ) (content rest : List ℕ)
    → k < 2 ^ 32
    → length content ≡ 8
    → next_field ((tag k 1 ++ content) ++ rest) ≡ ok (k, (raw content, rest))
unfolding read_value
next_field_eight k content rest hk hl =
    ap next_field (append_assoc (tag k 1) content rest)
    ∙ next_field-tag k 1 (content ++ rest) hk (omega arith)
    ∙ rw (← hl) (rw (read_raw-append content rest) refl)

next_field_four :
    (k : ℕ) (content rest : List ℕ)
    → k < 2 ^ 32
    → length content ≡ 4
    → next_field ((tag k 5 ++ content) ++ rest) ≡ ok (k, (raw content, rest))
unfolding read_value
next_field_four k content rest hk hl =
    ap next_field (append_assoc (tag k 5) content rest)
    ∙ next_field-tag k 5 (content ++ rest) hk (omega arith)
    ∙ rw (← hl) (rw (read_raw-append content rest) refl)

some_byte : (n : ℕ) (rest : List ℕ) → 1 ≤ length (varint n ++ rest)
unfolding varint varint_loop
some_byte n rest = ground arith

-- With any fuel that the length of the buffer bounds, the loop over its fields comes to a result.
abbrev pub ReadsTo {ℓ} :
    {S : Type ℓ} → (S → ℕ → FieldValue → Result S) → S → List ℕ → Result S → Type ℓ
ReadsTo step s buf out = (f : ℕ) → length buf ≤ f → for_fields step f s buf ≡ out

pub ReadsTo-end {ℓ} :
    {S : Type ℓ} (step : S → ℕ → FieldValue → Result S) (s : S) → ReadsTo step s [] (ok s)
unfolding for_fields
ReadsTo-end step s f h = refl

-- The loop takes one field.
field_runs {ℓ} :
    {S : Type ℓ} (step : S → ℕ → FieldValue → Result S) (s after : S) (chunk rest : List ℕ) (k : ℕ)
    (v : FieldValue) (out : Result S)
    → 1 ≤ length chunk
    → next_field (chunk ++ rest) ≡ ok (k, (v, rest))
    → step s k v ≡ ok after
    → ReadsTo step after rest out
    → ReadsTo step s (chunk ++ rest) out
unfolding for_fields
field_runs step s after [] rest k v out one n e r f h = absurd (omega arith)
field_runs step s after (b ∷ chunk) rest k v out one n e r zero h = absurd (omega arith)
field_runs step s after (b ∷ chunk) rest k v out one n e r (suc f) h =
    rw n (rw e (r f (omega (arith, length-append chunk rest))))

-- The same for each field that an encoder writes.
module _ {ℓ} {S : Type ℓ} (step : S → ℕ → FieldValue → Result S) (s after : S) (k : ℕ)
    (rest : List ℕ) (out : Result S) (hk : k < 2 ^ 32) (next : ReadsTo step after rest out) where
  pub varint_runs :
      (v : ℕ)
      → v < 2 ^ 64
      → step s k (number v) ≡ ok after
      → ReadsTo step s (field_varint k v ++ rest) out
  unfolding field_varint tag
  varint_runs v hv e =
      field_runs step s after (field_varint k v) rest k (number v) out
        (some_byte (k * 8 + 0) (varint v)) (next_field-varint k v rest hk hv) e next

  pub len_runs :
      (content : List ℕ)
      → length content < 2 ^ 64
      → step s k (raw content) ≡ ok after
      → ReadsTo step s (field_len k content ++ rest) out
  unfolding field_len tag
  len_runs content hl e =
      field_runs step s after (field_len k content) rest k (raw content) out
        (some_byte (k * 8 + 2) (varint (length content) ++ content))
        (next_field-len k content rest hk hl) e next

  pub eight_runs :
      (content : List ℕ)
      → length content ≡ 8
      → step s k (raw content) ≡ ok after
      → ReadsTo step s ((tag k 1 ++ content) ++ rest) out
  unfolding tag
  eight_runs content hl e =
      field_runs step s after (tag k 1 ++ content) rest k (raw content) out
        (some_byte (k * 8 + 1) content) (next_field_eight k content rest hk hl) e next

  pub four_runs :
      (content : List ℕ)
      → length content ≡ 4
      → step s k (raw content) ≡ ok after
      → ReadsTo step s ((tag k 5 ++ content) ++ rest) out
  unfolding tag
  four_runs content hl e =
      field_runs step s after (tag k 5 ++ content) rest k (raw content) out
        (some_byte (k * 8 + 5) content) (next_field_four k content rest hk hl) e next
