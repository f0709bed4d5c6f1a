-- ===== src/Mqtt/Sparkplug/Decode.antt =====
-- packages/connectors/mqtt/src/rca_connector_mqtt/sparkplug.py: the decoders. The bytes from `pos` on
-- stand for the buffer and the position. A byte below 128 has no top bit, and a group of seven bits
-- meets none that were read before it, so `|=` adds.
use industrial_rca.Prelude.{
  String, ℕ, zero, suc, ◌+◌, ◌*◌, ◌/◌, ◌%◌, ◌^◌, Bool, true, false, not, Option, none, some, List,
  [], ◌∷◌, ◌++◌, length, take, drop, ltb, ◌==◌, if◌then◌else◌,
}
use industrial_rca.Mqtt.Sparkplug.{
  DataType, int64, float, double, boolean, string, FieldValue, number, raw, pos, Value, nothing,
  whole, real, flag, text, bytes, Metric, Payload, Result, ok, raised, stuck, Exception,
  value_error, unicode_error, struct_error, type_error, attribute_error, ◌>>=◌, or_raise, Python,
  String,
}

unfoldable pub read_loop : List ℕ → ℕ → ℕ → Result (ℕ × List ℕ)
read_loop [] result shift = raised value_error
read_loop (b ∷ rest) result shift =
    let total = result + b % 128 * 2 ^ shift in
    let more = read_loop rest total (shift + 7) in
    if ltb b 128 then ok (total, rest) else if ltb 63 (shift + 7) then raised value_error else more

unfoldable pub read_varint : List ℕ → Result (ℕ × List ℕ)
unfolding read_loop
read_varint buf = read_loop buf 0 0

-- The next bytes, as many as the field has, or the error of the bounds check.
unfoldable pub read_raw : ℕ → List ℕ → Result (FieldValue × List ℕ)
read_raw n rest =
    if ltb (length rest) n then raised value_error else ok (raw (take n rest), drop n rest)

abbrev pub as_number : ℕ × List ℕ → Result (FieldValue × List ℕ)
as_number (value, after) = ok (number value, after)

unfoldable pub read_sized : ℕ × List ℕ → Result (FieldValue × List ℕ)
unfolding read_raw
read_sized (n, after) = read_raw n after

unfoldable pub read_value : ℕ → List ℕ → Result (FieldValue × List ℕ)
unfolding read_varint read_raw read_sized
read_value wire rest =
    if wire == 0
    then read_varint rest >>= as_number
    else if wire == 1
    then read_raw 8 rest
    else if wire == 5
    then read_raw 4 rest
    else if wire == 2
    then read_varint rest >>= read_sized
    else raised value_error

unfoldable pub next_field : List ℕ → Result (ℕ × (FieldValue × List ℕ))
unfolding read_value
next_field buf = read_varint buf >>= λ (key, rest).
    read_value (key % 8) rest >>= λ (value, after). ok (key / 8, (value, after))

-- `for field_no, _wire, val in _iter_fields(buf)`, with a fuel that the length of `buf` bounds.
unfoldable pub for_fields {ℓ} :
    {S : Type ℓ} → (S → ℕ → FieldValue → Result S) → ℕ → S → List ℕ → Result S
unfolding next_field
for_fields step fuel s [] = ok s
for_fields step zero s (b ∷ buf) = stuck
for_fields step (suc fuel) s (b ∷ buf) = next_field (b ∷ buf) >>= λ (field_no, (value, rest)).
    step s field_no value >>= λ after. for_fields step fuel after rest

unfoldable pub data_type : FieldValue → Result DataType
data_type (raw b) = raised value_error
data_type (number n) =
    if n == 4
    then ok int64
    else if n == 9
    then ok float
    else if n == 10
    then ok double
    else if n == 11
    then ok boolean
    else if n == 12
    then ok string
    else raised value_error

-- `val.decode("utf-8")` and `struct.unpack`, which an integer does not have or refuses.
abbrev pub on_text : {F : Type 0} → Python F → FieldValue → Result String
on_text py (number n) = raised attribute_error
on_text py (raw b) = or_raise unicode_error (py.decode_text b)

abbrev pub on_float : {F : Type 0} → (List ℕ → Option F) → FieldValue → Result F
on_float unpack (number n) = raised type_error
on_float unpack (raw b) = or_raise struct_error (unpack b)

abbrev pub long_value : {F : Type 0} → FieldValue → Value F
long_value (number n) = whole (pos n)
long_value (raw b) = bytes b

abbrev pub truth : FieldValue → Bool
truth (number n) = not (n == 0)
truth (raw b) = not (length b == 0)

module _ {F : Type 0} (py : Python F) where
  abbrev pub no_metric : Metric F
  no_metric = record {
    datatype = double;
    value = nothing;
    name = none;
    alias = none;
    timestamp_ms = none;
  }

  -- The assignments of one field of a metric.
  abbrev pub set_name : Metric F → String → Result (Metric F)
  set_name m s = ok (record m { name = some s })

  abbrev pub set_type : Metric F → DataType → Result (Metric F)
  set_type m t = ok (record m { datatype = t })

  abbrev pub set_real : Metric F → F → Result (Metric F)
  set_real m x = ok (record m { value = real x })

  abbrev pub set_text : Metric F → String → Result (Metric F)
  set_text m s = ok (record m { value = text s })

  unfoldable pub metric_step : Metric F → ℕ → FieldValue → Result (Metric F)
  unfolding data_type
  metric_step m field_no val =
      if field_no == 1
      then on_text py val >>= set_name m
      else if field_no == 2
      then ok (record m { alias = some val })
      else if field_no == 3
      then ok (record m { timestamp_ms = some val })
      else if field_no == 4
      then data_type val >>= set_type m
      else if field_no == 11
      then ok (record m { value = long_value val })
      else if field_no == 12
      then on_float py.unpack_float val >>= set_real m
      else if field_no == 13
      then on_float py.unpack_double val >>= set_real m
      else if field_no == 14
      then ok (record m { value = flag (truth val) })
      else if field_no == 15
      then on_text py val >>= set_text m
      else ok m

  unfoldable pub decode_metric : List ℕ → Result (Metric F)
  unfolding for_fields metric_step
  decode_metric buf = for_fields metric_step (length buf) no_metric buf

  abbrev pub is_caught : Exception → Bool
  is_caught value_error = true
  is_caught unicode_error = true
  is_caught struct_error = true
  is_caught _ = false

  -- `metrics.append(...)` under the `try`.
  unfoldable pub append_metric : Payload F → Result (Metric F) → Result (Payload F)
  append_metric p (ok m) = ok (record p { metrics = p.metrics ++ m ∷ [] })
  append_metric p (raised e) = if is_caught e then ok p else raised e
  append_metric p stuck = stuck

  -- One field of a payload; `len` refuses a metric that is an integer.
  unfoldable pub payload_step : Payload F → ℕ → FieldValue → Result (Payload F)
  unfolding decode_metric append_metric
  payload_step p field_no val =
      if field_no == 1
      then ok (record p { timestamp_ms = val })
      else if field_no == 2
      then (elim val [ number n ↦ raised type_error | raw b ↦ append_metric p (decode_metric b) ])
      else if field_no == 3
      then ok (record p { seq = val })
      else ok p

  abbrev pub no_payload : Payload F
  no_payload = record { timestamp_ms = number 0; seq = number 0; metrics = [] }

  unfoldable pub decode_payload : List ℕ → Result (Payload F)
  unfolding for_fields payload_step
  decode_payload buf = for_fields payload_step (length buf) no_payload buf
