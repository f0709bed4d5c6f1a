-- ===== src/Mqtt/Sparkplug/Totality.antt =====
-- packages/connectors/mqtt/src/rca_connector_mqtt/sparkplug.py: the decoder comes to an end on every
-- byte string, and the exceptions that leave it.
use industrial_rca.Prelude.{
  ℕ, zero, suc, ◌+◌, ◌*◌, ◌%◌, ◌^◌, ◌≤◌, ◌<◌, ◌≡◌, refl, sym, subst, Bool, true, false, ◌⊎◌, inl,
  inr, List, [], ◌∷◌, length, length-drop, arith, ltb, ◌==◌, if◌then◌else◌, Option, none, some,
}
use industrial_rca.Mqtt.Sparkplug.{
  FieldValue, number, raw, Metric, Payload, Result, ok, raised, stuck, Exception, value_error,
  unicode_error, struct_error, type_error, attribute_error, ◌>>=◌, or_raise, Python,
}
use industrial_rca.Mqtt.Sparkplug.Decode.{
  read_loop, read_varint, read_raw, read_sized, read_value, as_number, next_field, for_fields,
  data_type, on_text, on_float, metric_step, set_name, set_type, set_real, set_text, no_metric,
  decode_metric, append_metric, payload_step, no_payload, decode_payload,
}

-- A result that is not `stuck`, with what holds of its value or of its exception.
abbrev pub Ends {ℓ} : {A : Type ℓ} → (A → Type 0) → (Exception → Type 0) → Result A → Type 0
Ends P E (ok a) = P a
Ends P E (raised e) = E e
Ends P E stuck = ⊥

bind-Ends {ℓ κ} :
    {A : Type ℓ} {B : Type κ} (P : A → Type 0) (Q : B → Type 0) (E : Exception → Type 0)
    (m : Result A) (f : A → Result B)
    → Ends P E m
    → ((a : A) → P a → Ends Q E (f a))
    → Ends Q E (m >>= f)
bind-Ends P Q E (ok a) f h k = k a h
bind-Ends P Q E (raised e) f h k = h
bind-Ends P Q E stuck f h k = absurd h

if-Ends {ℓ} :
    {A : Type ℓ} (P : A → Type 0) (E : Exception → Type 0) (b : Bool) (x y : Result A)
    → Ends P E x
    → Ends P E y
    → Ends P E (if b then x else y)
if-Ends P E true x y h k = h
if-Ends P E false x y h k = k

-- The exceptions of the framing.
abbrev pub OfValue : Exception → Type 0
OfValue e = e ≡ value_error

read_loop-Ends :
    (buf : List ℕ) (total shift : ℕ)
    → Ends (λ r. length r.1 < length buf) OfValue (read_loop buf total shift)
unfolding read_loop
read_loop-Ends [] total shift = refl
read_loop-Ends (b ∷ rest) total shift = if-Ends _ OfValue (ltb b 128) _ _ (omega arith) (
    if-Ends _ OfValue (ltb 63 (shift + 7)) _ _ refl (
      weaker (read_loop rest (total + b % 128 * 2 ^ shift) (shift + 7))
        (read_loop-Ends rest (total + b % 128 * 2 ^ shift) (shift + 7))))
  where
    weaker :
        (r : Result (ℕ × List ℕ))
        → Ends (λ q. length q.1 < length rest) OfValue r
        → Ends (λ q. length q.1 < suc (length rest)) OfValue r
    weaker (ok q) h = omega arith
    weaker (raised e) h = h
    weaker stuck h = h

read_raw-Ends :
    (n : ℕ) (buf : List ℕ) → Ends (λ r. length r.1 ≤ length buf) OfValue (read_raw n buf)
unfolding read_raw
read_raw-Ends n buf =
    if-Ends _ OfValue (ltb (length buf) n) _ _ refl (omega (arith, length-drop n buf))

read_value-Ends :
    (wire : ℕ) (buf : List ℕ) → Ends (λ r. length r.1 ≤ length buf) OfValue (read_value wire buf)
unfolding read_value read_varint read_sized
read_value-Ends wire buf =
    if-Ends _ OfValue (wire == 0) _ _
      (bind-Ends (λ r. length r.1 < length buf) (λ r. length r.1 ≤ length buf) OfValue
        (read_loop buf 0 0) as_number (read_loop-Ends buf 0 0) (λ r h. omega arith))
      (if-Ends _ OfValue (wire == 1) _ _ (read_raw-Ends 8 buf) (
        if-Ends _ OfValue (wire == 5) _ _ (read_raw-Ends 4 buf) (
          if-Ends _ OfValue (wire == 2) _ _
            (bind-Ends (λ r. length r.1 < length buf) (λ r. length r.1 ≤ length buf) OfValue
              (read_loop buf 0 0) read_sized (read_loop-Ends buf 0 0)
              (λ r h. shorter (read_raw r.0 r.1) r.1 h (read_raw-Ends r.0 r.1)))
            refl)))
  where
    shorter :
        (r : Result (FieldValue × List ℕ)) (mid : List ℕ)
        → length mid < length buf
        → Ends (λ q. length q.1 ≤ length mid) OfValue r
        → Ends (λ q. length q.1 ≤ length buf) OfValue r
    shorter (ok q) mid h k = omega arith
    shorter (raised e) mid h k = k
    shorter stuck mid h k = k

-- A field takes at least one byte.
next_field-Ends : (buf : List ℕ) → Ends (λ r. length r.1.1 < length buf) OfValue (next_field buf)
unfolding next_field read_varint
next_field-Ends buf =
    bind-Ends (λ r. length r.1 < length buf) (λ r. length r.1.1 < length buf) OfValue
      (read_loop buf 0 0) _ (read_loop-Ends buf 0 0)
      (λ r h.
        bind-Ends (λ q. length q.1 ≤ length r.1) (λ q. length q.1.1 < length buf) OfValue
          (read_value (r.0 % 8) r.1) _ (read_value-Ends (r.0 % 8) r.1) (λ q k. omega arith))

-- The loop ends within the length of the buffer, when each of its steps does.
for_fields-Ends {ℓ} :
    {S : Type ℓ} (E : Exception → Type 0) (step : S → ℕ → FieldValue → Result S)
    → E value_error
    → ((s : S) (k : ℕ) (v : FieldValue) → Ends (λ _. Unit) E (step s k v))
    → (f : ℕ) (s : S) (buf : List ℕ) → length buf ≤ f
    → Ends (λ _. Unit) E (for_fields step f s buf)
unfolding for_fields
for_fields-Ends E step e h f s [] l = tt
for_fields-Ends E step e h zero s (b ∷ buf) l = absurd (omega arith)
for_fields-Ends E step e h (suc f) s (b ∷ buf) l =
    bind-Ends (λ r. length r.1.1 < suc (length buf)) (λ _. Unit) E (next_field (b ∷ buf)) _
      (framed (next_field (b ∷ buf)) (next_field-Ends (b ∷ buf)))
      (λ r k.
        bind-Ends (λ _. Unit) (λ _. Unit) E (step s r.0 r.1.0) _ (h s r.0 r.1.0)
          (λ after _. for_fields-Ends E step e h f after r.1.1 (omega arith)))
  where
    framed :
        (r : Result (ℕ × (FieldValue × List ℕ)))
        → Ends (λ r. length r.1.1 < suc (length buf)) OfValue r
        → Ends (λ r. length r.1.1 < suc (length buf)) E r
    framed (ok r) k = k
    framed (raised x) k = subst E (sym k) e
    framed stuck k = k

-- Any exception, and those that leave `decode_payload`.
abbrev Anything : Exception → Type 0
Anything e = Unit

abbrev pub Escapes : Exception → Type 0
Escapes e = (e ≡ value_error) ⊎ (e ≡ type_error) ⊎ (e ≡ attribute_error)

or_raise-Ends {ℓ} :
    {A : Type ℓ} (e : Exception) (o : Option A) → Ends (λ _. Unit) Anything (or_raise e o)
or_raise-Ends e none = tt
or_raise-Ends e (some a) = tt

data_type-Ends : (v : FieldValue) → Ends (λ _. Unit) Anything (data_type v)
unfolding data_type
data_type-Ends (raw b) = tt
data_type-Ends (number n) = if-Ends _ _ (n == 4) _ _ tt (
    if-Ends _ _ (n == 9) _ _ tt (
      if-Ends _ _ (n == 10) _ _ tt
        (if-Ends _ _ (n == 11) _ _ tt (if-Ends _ _ (n == 12) _ _ tt tt))))

module _ {F : Type 0} (py : Python F) where
  text-Ends : (v : FieldValue) → Ends (λ _. Unit) Anything (on_text py v)
  text-Ends (number n) = tt
  text-Ends (raw b) = or_raise-Ends unicode_error (py.decode_text b)

  float-Ends :
      (unpack : List ℕ → Option F) (v : FieldValue) → Ends (λ _. Unit) Anything (on_float unpack v)
  float-Ends unpack (number n) = tt
  float-Ends unpack (raw b) = or_raise-Ends struct_error (unpack b)

  then_set {ℓ} :
      {A : Type ℓ} (r : Result A) (f : A → Result (Metric F))
      → Ends (λ _. Unit) Anything r
      → ((a : A) → Ends (λ _. Unit) Anything (f a))
      → Ends (λ _. Unit) Anything (r >>= f)
  then_set r f h k = bind-Ends (λ _. Unit) (λ _. Unit) Anything r f h (λ a _. k a)

  metric_step-Ends :
      (m : Metric F) (k : ℕ) (v : FieldValue) → Ends (λ _. Unit) Anything (metric_step py m k v)
  unfolding metric_step
  metric_step-Ends m k v =
      if-Ends _ _ (k == 1) _ _ (then_set (on_text py v) (set_name py m) (text-Ends v) (λ s. tt)) (
        if-Ends _ _ (k == 2) _ _ tt (
          if-Ends _ _ (k == 3) _ _ tt (
            if-Ends _ _ (k == 4) _ _
              (then_set (data_type v) (set_type py m) (data_type-Ends v) (λ t. tt))
              (if-Ends _ _ (k == 11) _ _ tt (
                if-Ends _ _ (k == 12) _ _
                  (then_set (on_float py.unpack_float v) (set_real py m)
                    (float-Ends py.unpack_float v) (λ x. tt))
                  (if-Ends _ _ (k == 13) _ _
                    (then_set (on_float py.unpack_double v) (set_real py m)
                      (float-Ends py.unpack_double v) (λ x. tt))
                    (if-Ends _ _ (k == 14) _ _ tt (
                      if-Ends _ _ (k == 15) _ _
                        (then_set (on_text py v) (set_text py m) (text-Ends v) (λ s. tt)) tt))))))))

  append_metric-Ends :
      (p : Payload F) (r : Result (Metric F))
      → Ends (λ _. Unit) Anything r
      → Ends (λ _. Unit) Escapes (append_metric py p r)
  unfolding append_metric
  append_metric-Ends p (ok m) h = tt
  append_metric-Ends p (raised value_error) h = tt
  append_metric-Ends p (raised unicode_error) h = tt
  append_metric-Ends p (raised struct_error) h = tt
  append_metric-Ends p (raised type_error) h = inr (inl refl)
  append_metric-Ends p (raised attribute_error) h = inr (inr refl)
  append_metric-Ends p stuck h = h

  payload_step-Ends :
      (p : Payload F) (k : ℕ) (v : FieldValue) → Ends (λ _. Unit) Escapes (payload_step py p k v)
  unfolding payload_step decode_metric
  payload_step-Ends p k v =
      if-Ends _ _ (k == 1) _ _ tt
        (if-Ends _ _ (k == 2) _ _ (metric v) (if-Ends _ _ (k == 3) _ _ tt tt))
    where
      metric :
          (v : FieldValue)
          → Ends
              (λ _. Unit)
              Escapes
              (elim v [
                | number n ↦ raised type_error
                | raw b ↦ append_metric py p (decode_metric py b)
              ])
      metric (number n) = inr (inl refl)
      metric (raw b) = append_metric-Ends p (decode_metric py b) (
          for_fields-Ends Anything (metric_step py) tt metric_step-Ends (length b) (no_metric py) b
            (omega arith))

-- Whatever the bytes and however Python's conversions answer, `decode_payload` comes to an end: it
-- returns a payload, or it raises a `ValueError`, a `TypeError` or an `AttributeError`.
pub decode_payload_ends :
    {F : Type 0} (py : Python F) (buf : List ℕ)
    → ((p : Payload F) × (decode_payload py buf ≡ ok p))
      ⊎ ((e : Exception) × (decode_payload py buf ≡ raised e)
          × ((e ≡ value_error) ⊎ (e ≡ type_error) ⊎ (e ≡ attribute_error)))
unfolding decode_payload
decode_payload_ends {F = F} py buf = settle (decode_payload py buf) refl (
    for_fields-Ends Escapes (payload_step py) (inl refl) (payload_step-Ends py) (length buf)
      (no_payload py) buf (omega arith))
  where
    settle :
        (r : Result (Payload F))
        → decode_payload py buf ≡ r
        → Ends (λ _. Unit) Escapes r
        → ((p : Payload F) × (decode_payload py buf ≡ ok p))
          ⊎ ((e : Exception) × (decode_payload py buf ≡ raised e) × Escapes e)
    settle (ok p) q h = inl (p, q)
    settle (raised e) q h = inr (e, q, h)
    settle stuck q h = absurd h
