-- ===== src/Mqtt/Sparkplug/Metrics.antt =====
-- packages/connectors/mqtt/src/rca_connector_mqtt/sparkplug.py: `_decode_metric` reads back what
-- `_encode_metric` writes.
use industrial_rca.Prelude.{
  ℕ, ◌^◌, ◌<◌, ◌≡◌, refl, subst, String, Bool, true, false, Option, none, some, List, [], ◌++◌,
  length, arith, if◌then◌else◌,
}
use mathlib.Core.List.{append-nil}
use industrial_rca.Mqtt.Sparkplug.{
  DataType, int64, float, double, boolean, string, FieldValue, number, raw, pos, Value, nothing,
  whole, real, flag, text, Metric, Result, ok, Python,
}
use industrial_rca.Mqtt.Sparkplug.Encode.{
  field_varint, field_len, tag, masked, number_of, any_varint, optional_varint, name_field,
  encode_metric_value, encode_metric,
}
use industrial_rca.Mqtt.Sparkplug.Decode.{data_type, metric_step, no_metric, decode_metric}
use industrial_rca.Mqtt.Sparkplug.Fields.{
  ReadsTo, ReadsTo-end, varint_runs, len_runs, eight_runs, four_runs,
}

-- What Python documents: a double has 8 bytes and is read back, a float has 4 bytes, and the
-- conversions keep a value that is of their type.
pub record IsPython {F : Type 0} (py : Python F) : Type 0 where
  pub double_back : (x : F) → py.unpack_double (py.pack_double x) ≡ some x
  pub double_size : (x : F) → length (py.pack_double x) ≡ 8
  pub float_size : (x : F) → length (py.pack_float x) ≡ 4
  pub float_same : (x : F) → py.to_float (real x) ≡ ok x
  pub int_same : (n : ℕ) → py.to_int (whole (pos n)) ≡ ok (pos n)
  pub bool_same : (b : Bool) → py.to_bool (flag b) ≡ b
  pub text_same : (s : String) → py.to_text (text s) ≡ s

module _ {F : Type 0} (py : Python F) where
  -- A text that UTF-8 decodes as it encoded it, with a length that a varint of 64 bits holds.
  abbrev pub IsText : String → Type 0
  IsText s = (py.decode_text (py.encode_text s) ≡ some s) × (length (py.encode_text s) < 2 ^ 64)

  -- The value is of the type that the datatype says, and fits the wire: a float is one of single
  -- precision, and an integer is not negative.
  abbrev pub Fits : DataType → Value F → Type 0
  Fits double (real x) = Unit
  Fits float (real x) = py.unpack_float (py.pack_float x) ≡ some x
  Fits boolean (flag b) = Unit
  Fits string (text s) = IsText s
  Fits int64 (whole (pos n)) = n < 2 ^ 64
  Fits _ _ = ⊥

  abbrev pub IsNumber : FieldValue → Type 0
  IsNumber (number n) = n < 2 ^ 64
  IsNumber (raw b) = ⊥

  abbrev pub Optional {ℓ} : {A : Type ℓ} → (A → Type 0) → Option A → Type 0
  Optional P none = Unit
  Optional P (some a) = P a

  pub record IsPlain (m : Metric F) : Type 0 where
    pub fits : Fits m.datatype m.value
    pub name_fits : Optional IsText m.name
    pub alias_fits : Optional IsNumber m.alias
    pub timestamp_fits : Optional IsNumber m.timestamp_ms

module _ {F : Type 0} (py : Python F) (laws : IsPython py) where
  -- A metric as the decoder fills it.
  abbrev stage :
      DataType → Value F → Option String → Option FieldValue → Option FieldValue → Metric F
  stage dt v n a t = record { datatype = dt; value = v; name = n; alias = a; timestamp_ms = t }

  abbrev Reads : Metric F → List ℕ → Result (Metric F) → Type 0
  Reads = ReadsTo (metric_step py)

  name-Reads :
      (n : Option String) (rest : List ℕ) (out : Result (Metric F))
      → Optional py (IsText py) n
      → Reads (stage double nothing n none none) rest out
      → Reads (no_metric py) (name_field py n ++ rest) out
  unfolding name_field metric_step
  name-Reads none rest out h r = r
  name-Reads (some s) rest out h r =
      len_runs (metric_step py) (no_metric py) (stage double nothing (some s) none none) 1 rest out
        (omega arith) r (py.encode_text s) h.1 (rw h.0 refl)

  alias-Reads :
      (n : Option String) (a : Option FieldValue) (rest : List ℕ) (out : Result (Metric F))
      → Optional py (IsNumber py) a
      → Reads (stage double nothing n a none) rest out
      → (chunk : List ℕ) × (optional_varint 2 a ≡ ok chunk)
        × Reads (stage double nothing n none none) (chunk ++ rest) out
  unfolding optional_varint any_varint metric_step
  alias-Reads n none rest out h r = ([], refl, r)
  alias-Reads n (some (number k)) rest out h r = (
    field_varint 2 k,
    refl,
    varint_runs (metric_step py) (stage double nothing n none none)
        (stage double nothing n (some (number k)) none) 2 rest out (omega arith) r k h refl,
  )
  alias-Reads n (some (raw b)) rest out h r = absurd h

  timestamp-Reads :
      (n : Option String) (a t : Option FieldValue) (rest : List ℕ) (out : Result (Metric F))
      → Optional py (IsNumber py) t
      → Reads (stage double nothing n a t) rest out
      → (chunk : List ℕ) × (optional_varint 3 t ≡ ok chunk)
        × Reads (stage double nothing n a none) (chunk ++ rest) out
  unfolding optional_varint any_varint metric_step
  timestamp-Reads n a none rest out h r = ([], refl, r)
  timestamp-Reads n a (some (number k)) rest out h r = (
    field_varint 3 k,
    refl,
    varint_runs (metric_step py) (stage double nothing n a none)
        (stage double nothing n a (some (number k))) 3 rest out (omega arith) r k h refl,
  )
  timestamp-Reads n a (some (raw b)) rest out h r = absurd h

  small_type : (dt : DataType) → number_of dt < 2 ^ 64
  unfolding number_of
  small_type int64 = omega arith
  small_type float = omega arith
  small_type double = omega arith
  small_type boolean = omega arith
  small_type string = omega arith

  type_back : (dt : DataType) → data_type (number (number_of dt)) ≡ ok dt
  unfolding data_type number_of
  type_back int64 = refl
  type_back float = refl
  type_back double = refl
  type_back boolean = refl
  type_back string = refl

  type-Reads :
      (dt : DataType) (n : Option String) (a t : Option FieldValue) (rest : List ℕ)
      (out : Result (Metric F))
      → Reads (stage dt nothing n a t) rest out
      → Reads (stage double nothing n a t) (field_varint 4 (number_of dt) ++ rest) out
  unfolding metric_step
  type-Reads dt n a t rest out r =
      varint_runs (metric_step py) (stage double nothing n a t) (stage dt nothing n a t) 4 rest out
        (omega arith) r (number_of dt) (small_type dt) (rw (type_back dt) refl)

  -- The value, which ends the metric.
  value-Reads :
      (dt : DataType) (v : Value F) (n : Option String) (a t : Option FieldValue)
      → Fits py dt v
      → (chunk : List ℕ) × (encode_metric_value py (stage dt v n a t) ≡ ok chunk)
        × Reads (stage dt nothing n a t) (chunk ++ []) (ok (stage dt v n a t))
  unfolding encode_metric_value metric_step masked
  value-Reads double (real x) n a t h =
      let end = ReadsTo-end (metric_step py) (stage double (real x) n a t) in
      (
        tag 13 1 ++ py.pack_double x,
        rw (laws.float_same x) refl,
        eight_runs (metric_step py) (stage double nothing n a t) (stage double (real x) n a t) 13 []
            (ok (stage double (real x) n a t)) (omega arith) end (py.pack_double x)
            (laws.double_size x) (rw (laws.double_back x) refl),
      )
  value-Reads float (real x) n a t h =
      let end = ReadsTo-end (metric_step py) (stage float (real x) n a t) in
      (
        tag 12 5 ++ py.pack_float x,
        rw (laws.float_same x) refl,
        four_runs (metric_step py) (stage float nothing n a t) (stage float (real x) n a t) 12 []
            (ok (stage float (real x) n a t)) (omega arith) end (py.pack_float x)
            (laws.float_size x) (rw h refl),
      )
  value-Reads boolean (flag b) n a t h =
      let end = ReadsTo-end (metric_step py) (stage boolean (flag b) n a t) in
      (
        field_varint 14 (if b then 1 else 0),
        rw (laws.bool_same b) refl,
        varint_runs (metric_step py) (stage boolean nothing n a t) (stage boolean (flag b) n a t) 14
            [] (ok (stage boolean (flag b) n a t)) (omega arith) end (if b then 1 else 0) (bit b)
            (flag_back b),
      )
    where
      bit : (b : Bool) → (if b then 1 else 0) < 2 ^ 64
      bit true = omega arith
      bit false = omega arith

      flag_back :
          (c : Bool)
          → metric_step py (stage boolean nothing n a t) 14 (number (if c then 1 else 0))
            ≡ ok (stage boolean (flag c) n a t)
      flag_back true = refl
      flag_back false = refl
  value-Reads string (text s) n a t h =
      let end = ReadsTo-end (metric_step py) (stage string (text s) n a t) in
      (
        field_len 15 (py.encode_text s),
        rw (laws.text_same s) refl,
        len_runs (metric_step py) (stage string nothing n a t) (stage string (text s) n a t) 15 []
            (ok (stage string (text s) n a t)) (omega arith) end (py.encode_text s) h.1
            (rw h.0 refl),
      )
  value-Reads int64 (whole (pos k)) n a t h =
      let end = ReadsTo-end (metric_step py) (stage int64 (whole (pos k)) n a t) in
      (
        field_varint 11 k,
        rw (laws.int_same k) refl,
        varint_runs (metric_step py) (stage int64 nothing n a t) (stage int64 (whole (pos k)) n a t)
            11 [] (ok (stage int64 (whole (pos k)) n a t)) (omega arith) end k h refl,
      )
  value-Reads _ _ n a t h = absurd h

  pub metric_trip :
      (m : Metric F)
      → IsPlain py m
      → (chunk : List ℕ) × (encode_metric py m ≡ ok chunk) × (decode_metric py chunk ≡ ok m)
  unfolding encode_metric decode_metric
  metric_trip m p =
      let (vb, ev, rv) = value-Reads m.datatype m.value m.name m.alias m.timestamp_ms p.fits in
      let rv' =
        subst (λ b. Reads (stage m.datatype nothing m.name m.alias m.timestamp_ms) b (ok m))
          (append-nil vb) rv in
      let rd = type-Reads m.datatype m.name m.alias m.timestamp_ms vb (ok m) rv' in
      let (tb, et, rt) =
        timestamp-Reads m.name m.alias m.timestamp_ms (field_varint 4 (number_of m.datatype) ++ vb)
          (ok m) p.timestamp_fits rd in
      let (ab, ea, ra) =
        alias-Reads m.name m.alias (tb ++ (field_varint 4 (number_of m.datatype) ++ vb)) (ok m)
          p.alias_fits rt in
      let body = ab ++ (tb ++ (field_varint 4 (number_of m.datatype) ++ vb)) in
      let all = name-Reads m.name body (ok m) p.name_fits ra in
      (
        name_field py m.name ++ body,
        rw ea (rw et (rw ev refl)),
        all (length (name_field py m.name ++ body)) (omega arith),
      )
