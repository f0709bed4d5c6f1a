-- ===== src/Mqtt/Sparkplug/Encode.antt =====
-- packages/connectors/mqtt/src/rca_connector_mqtt/sparkplug.py: the encoders.
use industrial_rca.Prelude.{
  String, ℕ, zero, suc, ◌+◌, ◌-◌, ◌*◌, ◌/◌, ◌%◌, ◌^◌, true, false, Option, none, some, List, [],
  ◌∷◌, ◌++◌, length, ◌==◌, if◌then◌else◌,
}
use industrial_rca.Mqtt.Sparkplug.{
  DataType, int64, float, double, boolean, string, FieldValue, number, raw, ℤ, pos, negsuc, Metric,
  Payload, Result, ok, raised, type_error, ◌>>=◌, Python,
}

-- The loop: seven bits at a time, the lowest first, and the top bit on every byte but the last.
unfoldable pub varint_loop : ℕ → ℕ → List ℕ
varint_loop zero n = []
varint_loop (suc fuel) n = elim (n / 128 == 0) [
  | true ↦ n % 128 ∷ []
  | false ↦ (n % 128 + 128) ∷ varint_loop fuel (n / 128)
]

unfoldable pub varint : ℕ → List ℕ
unfolding varint_loop
varint n = varint_loop (suc n) n

-- `n &= (1 << 64) - 1` for a negative number: -1 - n is 2^64 - 1 - n there.
unfoldable pub masked : ℤ → ℕ
masked (pos n) = n
masked (negsuc n) = 2 ^ 64 - 1 - n % 2 ^ 64

unfoldable pub tag : ℕ → ℕ → List ℕ
unfolding varint
tag field_no wire = varint (field_no * 8 + wire)

unfoldable pub field_varint : ℕ → ℕ → List ℕ
unfolding tag
field_varint field_no value = tag field_no 0 ++ varint value

unfoldable pub field_len : ℕ → List ℕ → List ℕ
unfolding tag
field_len field_no content = tag field_no 2 ++ (varint (length content) ++ content)

unfoldable pub number_of : DataType → ℕ
number_of int64 = 4
number_of float = 9
number_of double = 10
number_of boolean = 11
number_of string = 12

-- A varint of a value that may be bytes, which `n < 0` refuses.
unfoldable pub any_varint : ℕ → FieldValue → Result (List ℕ)
unfolding field_varint
any_varint field_no (number n) = ok (field_varint field_no n)
any_varint field_no (raw b) = raised type_error

unfoldable pub optional_varint : ℕ → Option FieldValue → Result (List ℕ)
unfolding any_varint
optional_varint field_no none = ok []
optional_varint field_no (some v) = any_varint field_no v

module _ {F : Type 0} (py : Python F) where
  unfoldable pub encode_metric_value : Metric F → Result (List ℕ)
  unfolding field_varint field_len masked
  encode_metric_value m = elim m.datatype [
    | double ↦ py.to_float m.value >>= λ x. ok (tag 13 1 ++ py.pack_double x)
    | float ↦ py.to_float m.value >>= λ x. ok (tag 12 5 ++ py.pack_float x)
    | boolean ↦ ok (field_varint 14 (if py.to_bool m.value then 1 else 0))
    | string ↦ ok (field_len 15 (py.encode_text (py.to_text m.value)))
    | int64 ↦ py.to_int m.value >>= λ i. ok (field_varint 11 (masked i))
  ]

  unfoldable pub name_field : Option String → List ℕ
  unfolding field_len
  name_field none = []
  name_field (some name) = field_len 1 (py.encode_text name)

  unfoldable pub encode_metric : Metric F → Result (List ℕ)
  unfolding encode_metric_value name_field optional_varint number_of
  encode_metric m = do
    alias ← optional_varint 2 m.alias
    timestamp ← optional_varint 3 m.timestamp_ms
    value ← encode_metric_value m
    ok (
        name_field m.name
        ++ (alias ++ (timestamp ++ (field_varint 4 (number_of m.datatype) ++ value))))

  unfoldable pub encode_metrics : List (Metric F) → Result (List ℕ)
  unfolding encode_metric
  encode_metrics [] = ok []
  encode_metrics (m ∷ metrics) = do
    one ← encode_metric m
    rest ← encode_metrics metrics
    ok (field_len 2 one ++ rest)

  unfoldable pub encode_payload : Payload F → Result (List ℕ)
  unfolding encode_metrics any_varint
  encode_payload payload = do
    timestamp ← any_varint 1 payload.timestamp_ms
    metrics ← encode_metrics payload.metrics
    seq ← any_varint 3 payload.seq
    ok (timestamp ++ (metrics ++ seq))
