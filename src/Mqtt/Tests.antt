-- ===== src/Mqtt/Tests.antt =====
-- The theorems of the codec and of the ingest at concrete inputs, with texts of ASCII letters and floats
-- that are given by their bytes.
use Prim.Native.Char.{code}
use industrial_rca.Prelude.{
  mem_text, ◌≤◌, string_eq, ℕ, ◌≡◌, ◌⊎◌, refl, String, true, Option, none, some, List, [], ◌∷◌,
  length, ◌==◌, arith, if◌then◌else◌, ap,
}
use industrial_rca.Mqtt.Sparkplug.{
  pos, double, number, real, text, flag, whole, Metric, Payload, Result, ok, raised, Exception,
  type_error, value_error, attribute_error, Python,
}
use industrial_rca.Mqtt.Sparkplug.Encode.{encode_payload, encode_metric}
use industrial_rca.Mqtt.Sparkplug.Decode.{decode_payload}
use industrial_rca.Mqtt.Sparkplug.Metrics.{IsPython}
use industrial_rca.Mqtt.Sparkplug.RoundTrip.{IsSendable, decode_payload-encode_payload}
use industrial_rca.Prelude.Dict.{get}
use industrial_rca.Mqtt.Topics.{Topic, parse_topic}
use industrial_rca.Mqtt.Uns.{SubscriptionState, Reading, on_message, build_recent}
use industrial_rca.Mqtt.Uns.Learning.{IsReading, alias_resolves}
use industrial_rca.Mqtt.Uns.Recent.{on_messages, on_messages-bounded}
use industrial_rca.Mqtt.Sparkplug.Totality.{decode_payload_ends}

record Float : Type 0 where
  pub sign : ℕ
  pub fraction : ℕ

abbrev codes : String → List ℕ
codes String.[] = []
codes (String.◌∷◌ c s) = code c ∷ codes s

abbrev unpacked : List ℕ → Option Float
unpacked (a ∷ b ∷ rest) = some (record { sign = a; fraction = b })
unpacked _ = none

abbrev py : Python Float
py = record {
  pack_float = λ x. x.sign ∷ x.fraction ∷ 0 ∷ 0 ∷ [];
  pack_double = λ x. x.sign ∷ x.fraction ∷ 0 ∷ 0 ∷ 0 ∷ 0 ∷ 0 ∷ 0 ∷ [];
  unpack_float = unpacked;
  unpack_double = unpacked;
  encode_text = codes;
  decode_text = λ b. some (if length b == 4 then "temp" else "on");
  to_float = λ v. elim v [ real x ↦ ok x | _ ↦ raised type_error ];
  to_int = λ v. elim v [ whole i ↦ ok i | _ ↦ raised type_error ];
  to_bool = λ v. elim v [ flag b ↦ b | _ ↦ true ];
  to_text = λ v. elim v [ text s ↦ s | _ ↦ "" ];
}

py-IsPython : IsPython py
py-IsPython = record {
  double_back = λ x. refl;
  double_size = λ x. refl;
  float_size = λ x. refl;
  float_same = λ x. refl;
  int_same = λ n. refl;
  bool_same = λ b. refl;
  text_same = λ s. refl;
}

abbrev reading : Metric Float
reading = record {
  datatype = double;
  value = real (record { sign = 64; fraction = 9 });
  name = some "temp";
  alias = some (number 7);
  timestamp_ms = none;
}

abbrev sent : Payload Float
sent = record { timestamp_ms = number 1700000000000; seq = number 3; metrics = reading ∷ [] }

abbrev size_of : Result (List ℕ) → ℕ
size_of (ok c) = length c
size_of _ = 0

reading-IsSendable : IsSendable py reading
unfolding encode_metric
reading-IsSendable = record {
  plain = record {
    fits = tt;
    name_fits = (refl, omega arith);
    alias_fits = omega arith;
    timestamp_fits = tt;
  };
  size = λ chunk e.
      let q : size_of (encode_metric py reading) ≡ length chunk = ap size_of e in omega (arith, q);
}

decode_payload-encode_payload_example :
    (chunk : List ℕ) × (encode_payload py sent ≡ ok chunk) × (decode_payload py chunk ≡ ok sent)
decode_payload-encode_payload_example =
    decode_payload-encode_payload py sent 1700000000000 3 py-IsPython refl refl (omega arith)
      (omega arith) (reading-IsSendable, tt)

-- A name that comes as a varint: field 2 holds the metric 08 05.
decode_payload_ends_example :
    ((p : Payload Float) × (decode_payload py (18 ∷ 2 ∷ 8 ∷ 5 ∷ []) ≡ ok p))
    ⊎ ((e : Exception) × (decode_payload py (18 ∷ 2 ∷ 8 ∷ 5 ∷ []) ≡ raised e)
        × ((e ≡ value_error) ⊎ (e ≡ type_error) ⊎ (e ≡ attribute_error)))
decode_payload_ends_example = decode_payload_ends py (18 ∷ 2 ∷ 8 ∷ 5 ∷ [])

-- One metric whose name is a varint makes the whole payload fail.
name_varint_run : decode_payload py (18 ∷ 2 ∷ 8 ∷ 5 ∷ []) ≡ raised attribute_error
unfolding decode_payload
name_varint_run = refl

abbrev next_reading : Metric Float
next_reading = record reading { name = none; value = real (record { sign = 64; fraction = 10 }) }

abbrev birth_bytes : List ℕ
birth_bytes =
    8 ∷ 5 ∷ 18 ∷ 19 ∷ 10 ∷ 4 ∷ 116 ∷ 101 ∷ 109 ∷ 112 ∷ 16 ∷ 7 ∷ 32 ∷ 10 ∷ 105 ∷ 64 ∷ 9 ∷ 0 ∷ 0 ∷ 0
    ∷ 0 ∷ 0 ∷ 0 ∷ 24 ∷ 3 ∷ []

abbrev data_bytes : List ℕ
data_bytes =
    8 ∷ 6 ∷ 18 ∷ 13 ∷ 16 ∷ 7 ∷ 32 ∷ 10 ∷ 105 ∷ 64 ∷ 10 ∷ 0 ∷ 0 ∷ 0 ∷ 0 ∷ 0 ∷ 0 ∷ 24 ∷ 4 ∷ []

abbrev birth : Payload Float
birth = record { timestamp_ms = number 5; seq = number 3; metrics = reading ∷ [] }

abbrev later : Payload Float
later = record { timestamp_ms = number 6; seq = number 4; metrics = next_reading ∷ [] }

abbrev quiet : SubscriptionState Float
quiet = record {
  group_id = none;
  node_id = none;
  aliases = [];
  current_values = [];
  recent = record { maxlen = 1; items = [] };
  events = [];
}

abbrev topic_at : String → Topic
topic_at msgtype = record { group = "S"; msgtype = msgtype; node = "n"; device = some "d" }

alias_resolves_example :
    (r : Reading Float) × (get "d/temp"
        (on_message py "spBv1.0/S/DDATA/n/d" data_bytes
          (on_message py "spBv1.0/S/DBIRTH/n/d" birth_bytes quiet)).current_values
      ≡ some r)
    × IsReading py later next_reading r
unfolding parse_topic decode_payload
alias_resolves_example =
    alias_resolves py "spBv1.0/S/DBIRTH/n/d" "spBv1.0/S/DDATA/n/d" (topic_at "DBIRTH")
      (topic_at "DDATA") birth_bytes data_bytes birth later quiet [] [] reading next_reading "temp"
      "d" (number 7) refl refl refl refl refl refl refl refl refl refl refl tt refl refl

abbrev messages : List (String × List ℕ)
messages =
    ("spBv1.0/S/DBIRTH/n/d", birth_bytes)
    ∷ ("spBv1.0/S/DDATA/n/d", data_bytes)
    ∷ ("x", 255 ∷ [])
    ∷ []

on_messages-bounded_example : length (on_messages py messages quiet).recent.items ≤ 1
on_messages-bounded_example = on_messages-bounded py messages quiet (omega arith)

abbrev busy : SubscriptionState Float
busy = on_messages py messages (record quiet { recent = record { maxlen = 3; items = [] } })

-- The limit 0 answers every message that is kept, where the limit 1 answers the last.
limit_run :
    (build_recent busy none (pos 0) ≡ busy.recent.items)
    × (length (build_recent busy none (pos 1)) ≡ 1)
unfolding build_recent on_messages decode_payload mem_text
limit_run = (refl, refl)
