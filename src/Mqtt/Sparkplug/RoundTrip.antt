-- ===== src/Mqtt/Sparkplug/RoundTrip.antt =====
-- packages/connectors/mqtt/src/rca_connector_mqtt/sparkplug.py: `decode_payload` reads back what
-- `encode_payload` writes.
use industrial_rca.Prelude.{
  ℕ, ◌^◌, ◌<◌, ◌≡◌, refl, sym, ap, ap₂, ◌∙◌, subst, List, [], ◌∷◌, ◌++◌, length, All, arith,
}
use mathlib.Core.List.{append_assoc, append-nil}
use industrial_rca.Mqtt.Sparkplug.{number, Metric, Payload, Result, ok, Python}
use industrial_rca.Mqtt.Sparkplug.Encode.{
  field_varint, field_len, any_varint, encode_metric, encode_metrics, encode_payload,
}
use industrial_rca.Mqtt.Sparkplug.Decode.{append_metric, payload_step, no_payload, decode_payload}
use industrial_rca.Mqtt.Sparkplug.Fields.{ReadsTo, ReadsTo-end, varint_runs, len_runs}
use industrial_rca.Mqtt.Sparkplug.Metrics.{IsPython, IsPlain, metric_trip}

-- A metric that goes into a payload: it is plain, and its encoding has a length of 64 bits.
pub record IsSendable {F : Type 0} (py : Python F) (m : Metric F) : Type 0 where
  pub plain : IsPlain py m
  pub size : (chunk : List ℕ) → encode_metric py m ≡ ok chunk → length chunk < 2 ^ 64

module _ {F : Type 0} (py : Python F) (laws : IsPython py) where
  abbrev Reads : Payload F → List ℕ → Result (Payload F) → Type 0
  Reads = ReadsTo (payload_step py)

  metrics_read :
      (metrics : List (Metric F)) (p : Payload F) (rest : List ℕ) (out : Result (Payload F))
      → All (IsSendable py) metrics
      → Reads (record p { metrics = p.metrics ++ metrics }) rest out
      → (chunk : List ℕ) × (encode_metrics py metrics ≡ ok chunk) × Reads p (chunk ++ rest) out
  unfolding encode_metrics payload_step append_metric
  metrics_read [] p rest out h r =
      ([], refl, subst (λ ms. Reads (record p { metrics = ms }) rest out) (append-nil p.metrics) r)
  metrics_read (m ∷ metrics) p rest out (s, h) r =
      let (b, e, d) = metric_trip py laws m s.plain in
      let after : Payload F = record p { metrics = p.metrics ++ m ∷ [] } in
      let (chunk, q, next) = metrics_read metrics after rest out h (
        subst (λ ms. Reads (record p { metrics = ms }) rest out)
          (sym (append_assoc p.metrics (m ∷ []) metrics)) r) in
      (
        field_len 2 b ++ chunk,
        rw e (rw q refl),
        subst (λ t. Reads p t out) (sym (append_assoc (field_len 2 b) chunk rest))
            (len_runs (payload_step py) p after 2 (chunk ++ rest) out (omega arith) next b
              (s.size b e) (rw d refl)),
      )

-- Let `struct` and Python's conversions behave as documented. A payload whose timestamp and sequence
-- number are below 2 to the 64th, and whose metrics have values of their datatypes (a float of single
-- precision, an integer that is not negative and is below 2 to the 64th), texts that UTF-8 decodes as
-- it encoded them, and parts that fit the lengths and varints of 64 bits, is encoded without an
-- exception, and the decoder gives the same payload back.
pub decode_payload-encode_payload :
    {F : Type 0} (py : Python F) (payload : Payload F) (time count : ℕ)
    → IsPython py
    → payload.timestamp_ms ≡ number time
    → payload.seq ≡ number count
    → time < 2 ^ 64
    → count < 2 ^ 64
    → All (IsSendable py) payload.metrics
    → (chunk : List ℕ) × (encode_payload py payload ≡ ok chunk)
      × (decode_payload py chunk ≡ ok payload)
unfolding encode_payload decode_payload any_varint payload_step
decode_payload-encode_payload {F = F} py payload time count laws et es ht hs h =
    let begun : Payload F = record (no_payload py) { timestamp_ms = number time } in
    let filled : Payload F = record begun { metrics = payload.metrics } in
    let done : Payload F = record filled { seq = number count } in
    let last =
      varint_runs (payload_step py) filled done 3 [] (ok done) (omega arith)
        (ReadsTo-end (payload_step py) done) count hs refl in
    let (ms, em, rm) =
      metrics_read py laws payload.metrics begun (field_varint 3 count ++ []) (ok done) h last in
    let first =
      varint_runs (payload_step py) (no_payload py) begun 1 (ms ++ (field_varint 3 count ++ []))
        (ok done) (omega arith) rm time ht refl in
    let chunk = field_varint 1 time ++ (ms ++ field_varint 3 count) in
    let read =
      subst (λ b. ReadsTo (payload_step py) (no_payload py) b (ok done))
        (ap (λ b. field_varint 1 time ++ (ms ++ b)) (append-nil (field_varint 3 count))) first in
    (
      chunk,
      rw et (rw em (rw es refl)),
      read (length chunk) (omega arith)
          ∙ ap ok (ap₂ (λ a b. record payload { timestamp_ms = a; seq = b }) (sym et) (sym es)),
    )
