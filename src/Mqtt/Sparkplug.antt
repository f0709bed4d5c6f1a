-- ===== src/Mqtt/Sparkplug.antt =====
-- packages/connectors/mqtt/src/rca_connector_mqtt/sparkplug.py: the types and the results. A byte is
-- a number below 256, and a timestamp, an alias or a sequence number is not negative. `struct`,
-- UTF-8 and Python's conversions between types are a parameter.
pub mod Encode
pub mod Decode
pub mod Varints
pub mod Fields
pub mod Metrics
pub mod RoundTrip
pub mod Totality
use industrial_rca.Prelude.{ℕ, String, Bool, Option, none, some, List}

pub data DataType : Type 0 where
  int64 float double boolean string : DataType

-- What a field of the wire holds: a varint, or the bytes of any other wire type.
pub data FieldValue : Type 0 where
  number : ℕ → FieldValue
  raw : List ℕ → FieldValue

-- Python's integers.
pub data ℤ : Type 0 where
  pos negsuc : ℕ → ℤ

-- The values of a metric; `F` is Python's `float`.
pub data Value (F : Type 0) : Type 0 where
  nothing : Value F
  whole : ℤ → Value F
  real : F → Value F
  flag : Bool → Value F
  text : String → Value F
  bytes : List ℕ → Value F

pub record Metric (F : Type 0) : Type 0 where
  pub datatype : DataType
  pub value : Value F
  pub name : Option String
  pub alias : Option FieldValue
  pub timestamp_ms : Option FieldValue

pub record Payload (F : Type 0) : Type 0 where
  pub timestamp_ms : FieldValue
  pub seq : FieldValue
  pub metrics : List (Metric F)

-- The exceptions that the codec raises or lets through.
pub data Exception : Type 0 where
  value_error unicode_error struct_error type_error attribute_error : Exception

-- `stuck` is no Python value: a loop ran out of fuel.
pub data Result {ℓ} (A : Type ℓ) : Type ℓ where
  ok : A → Result A
  raised : Exception → Result A
  stuck : Result A

infixl 5 ◌>>=◌
abbrev pub ◌>>=◌ {ℓ κ} : {A : Type ℓ} {B : Type κ} → Result A → (A → Result B) → Result B
ok a >>= f = f a
raised e >>= f = raised e
stuck >>= f = stuck

abbrev pub or_raise {ℓ} : {A : Type ℓ} → Exception → Option A → Result A
or_raise e none = raised e
or_raise e (some a) = ok a

-- What the codec takes from Python: `struct` on 4 and 8 bytes, UTF-8, with `none` where they raise, and
-- `float`, `int`, `bool` and `str` of a value.
pub record Python (F : Type 0) : Type 0 where
  pub pack_float : F → List ℕ
  pub pack_double : F → List ℕ
  pub unpack_float : List ℕ → Option F
  pub unpack_double : List ℕ → Option F
  pub encode_text : String → List ℕ
  pub decode_text : List ℕ → Option String
  pub to_float : Value F → Result F
  pub to_int : Value F → Result ℤ
  pub to_bool : Value F → Bool
  pub to_text : Value F → String
