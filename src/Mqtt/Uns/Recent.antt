-- ===== src/Mqtt/Uns/Recent.antt =====
-- packages/connectors/mqtt/src/rca_connector_mqtt/uns_service.py and server.py: the recent messages.
use industrial_rca.Prelude.{
  ℕ, suc, ◌-◌, ◌≤◌, ◌≡◌, ◌⊎◌, sym, subst, refl, String, Bool, true, false, List, [], ◌∷◌, length,
  length-drop, drop, arith, none, Option-cases, inl, inr, min, if◌then◌else◌,
}
use industrial_rca.Sdk.Subscription.{RingBuffer, append, append-bounded}
use industrial_rca.Mqtt.Sparkplug.{
  pos, negsuc, Result, ok, raised, stuck, Exception, Python, Payload,
}
use industrial_rca.Mqtt.Sparkplug.Decode.{decode_payload}
use industrial_rca.Mqtt.Topics.{Topic, parse_topic}
use industrial_rca.Mqtt.Uns.{
  SubscriptionState, Message, ingest_payload, handle_message, on_message, last_rows, build_recent,
}

-- The messages of a broker, one after the other.
unfoldable pub on_messages :
    {F : Type 0} → Python F → List (String × List ℕ) → SubscriptionState F → SubscriptionState F
unfolding on_message
on_messages py [] state = state
on_messages py ((topic, payload_bytes) ∷ rest) state =
    on_messages py rest (on_message py topic payload_bytes state)

abbrev IsBounded : {F : Type 0} → SubscriptionState F → Type 0
IsBounded state = length state.recent.items ≤ state.recent.maxlen

kept_bounded :
    {F : Type 0} (n : ℕ) (b : Bool) (item : Message F) (r : RingBuffer (Message F))
    → length r.items ≤ n
    → r.maxlen ≡ n
    → (length (if b then append item r else r).items ≤ n)
      × ((if b then append item r else r).maxlen ≡ n)
unfolding append
kept_bounded n true item r h e = (omega (arith, append-bounded item r, e), e)
kept_bounded n false item r h e = (h, e)

abbrev Keeps : {F : Type 0} → SubscriptionState F → SubscriptionState F → Type 0
Keeps after before =
    (length after.recent.items ≤ before.recent.maxlen)
    × (after.recent.maxlen ≡ before.recent.maxlen)

ingest_payload-Keeps :
    {F : Type 0} (py : Python F) (text : String) (topic : Topic) (payload : Payload F)
    (state : SubscriptionState F)
    → IsBounded state
    → Keeps (ingest_payload py text topic payload state) state
unfolding ingest_payload
ingest_payload-Keeps py text topic payload state h =
    kept_bounded state.recent.maxlen _ _ state.recent h refl

Result-cases {ℓ} :
    {A : Type ℓ} (r : Result A)
    → ((a : A) × (r ≡ ok a)) ⊎ ((e : Exception) × (r ≡ raised e)) ⊎ (r ≡ stuck)
Result-cases (ok a) = inl (a, refl)
Result-cases (raised e) = inr (inl (e, refl))
Result-cases stuck = inr (inr refl)

-- A message is dropped, or its payload is ingested.
on_message-cases :
    {F : Type 0} (py : Python F) (text : String) (payload_bytes : List ℕ)
    (state : SubscriptionState F)
    → (on_message py text payload_bytes state ≡ state)
      ⊎ ((t : Topic) × (p : Payload F) × (on_message py text payload_bytes state
            ≡ ingest_payload py text t p state))
unfolding on_message handle_message
on_message-cases py text payload_bytes state = elim (Option-cases (parse_topic text)) [
  | inl n ↦ inl (rw (n, on_message) refl)
  | inr (t, q) ↦ elim (Result-cases (decode_payload py payload_bytes)) [
    | inl (p, d) ↦ inr (t, p, rw (q, on_message) (rw d refl))
    | inr (inl (e, d)) ↦ inl (rw (q, on_message) (rw d refl))
    | inr (inr d) ↦ inl (rw (q, on_message) (rw d refl))
  ]
]

on_message-Keeps :
    {F : Type 0} (py : Python F) (text : String) (payload_bytes : List ℕ)
    (state : SubscriptionState F)
    → IsBounded state
    → Keeps (on_message py text payload_bytes state) state
on_message-Keeps py text payload_bytes state h =
    elim (on_message-cases py text payload_bytes state) [
      | inl q ↦ subst (λ s. Keeps s state) (sym q) (h, refl)
      | inr (t, p, q) ↦
          subst (λ s. Keeps s state) (sym q) (ingest_payload-Keeps py text t p state h)
    ]

-- A buffer of recent messages that is within its bound stays within it, whatever messages come.
pub on_messages-bounded :
    {F : Type 0} (py : Python F) (messages : List (String × List ℕ)) (state : SubscriptionState F)
    → length state.recent.items ≤ state.recent.maxlen
    → length (on_messages py messages state).recent.items ≤ state.recent.maxlen
unfolding on_messages
on_messages-bounded py [] state h = h
on_messages-bounded py ((text, payload_bytes) ∷ messages) state h =
    let (a, b) = on_message-Keeps py text payload_bytes state h in
    omega (
      arith,
      b,
      on_messages-bounded py messages (on_message py text payload_bytes state)
          (omega (arith, a, b)),
    )

-- A limit above 0 answers that many of the latest rows, or all where there are fewer; the limit 0
-- answers every row, as a negative limit does.
pub recent_limits :
    {F : Type 0} (state : SubscriptionState F) (n : ℕ)
    → (build_recent state none (pos 0) ≡ state.recent.items)
      × (build_recent state none (negsuc n) ≡ state.recent.items)
      × (build_recent state none (pos (suc n))
          ≡ drop (length state.recent.items - suc n) state.recent.items)
      × (length (build_recent state none (pos (suc n))) ≡ min (suc n) (length state.recent.items))
unfolding build_recent last_rows
recent_limits state n = (
  refl,
  refl,
  refl,
  omega (arith, length-drop (length state.recent.items - suc n) state.recent.items),
)
