-- ===== src/Mqtt/Uns/Learning.antt =====
-- packages/connectors/mqtt/src/rca_connector_mqtt/uns_service.py: an alias that a BIRTH declares
-- resolves the values that come under it.
use industrial_rca.Prelude.{
  ℕ, String, ◌≡◌, refl, sym, ap, ◌∙◌, subst, Option, none, some, List, [], ◌∷◌, ◌++◌, All,
  string_eq,
}
use industrial_rca.Prelude.Dict.{Dict, get, get-put_self}
use industrial_rca.Mqtt.Sparkplug.{
  Result, nothing, bytes, raised, stuck, whole, real, text, flag, FieldValue, Metric, Payload, ok,
  Python, Value,
}
use industrial_rca.Mqtt.Sparkplug.Decode.{decode_payload}
use industrial_rca.Mqtt.Topics.{Topic, parse_topic}
use industrial_rca.Mqtt.Aliases.{alias_eq}
use industrial_rca.Mqtt.Uns.{
  Ingest, Reading, as_float, learn, resolved_name, reading_of, surface, ingest, ingest_all,
  ingest_payload, aliases_of, store_aliases, handle_message, on_message, SubscriptionState, tag_of,
}

module _ {F : Type 0} (py : Python F) (topic : Topic) (payload : Payload F) where
  ingest_all-append :
      (xs ys : List (Metric F)) (i : Ingest F)
      → ingest_all py topic payload (xs ++ ys) i
        ≡ ingest_all py topic payload ys (ingest_all py topic payload xs i)
  unfolding ingest_all
  ingest_all-append [] ys i = refl
  ingest_all-append (x ∷ xs) ys i = ingest_all-append xs ys (ingest py topic payload i x)

  name_held :
      (m : Metric F) (i : Ingest F) (name device : String) (alias : FieldValue)
      → m.name ≡ some name
      → m.alias ≡ some alias
      → topic.device ≡ some device
      → get alias (ingest py topic payload i m).aliases ≡ some name
  unfolding ingest learn
  name_held m i name device alias n a d = rw n (rw a (rw d (get-put_self alias name i.aliases)))

  -- A metric without a name declares nothing.
  unnamed :
      (m : Metric F) (i : Ingest F)
      → m.name ≡ none
      → (ingest py topic payload i m).aliases ≡ i.aliases
  unfolding ingest learn
  unnamed m i n = rw n refl

  all_unnamed :
      (metrics : List (Metric F)) (i : Ingest F)
      → All (λ m. m.name ≡ none) metrics
      → (ingest_all py topic payload metrics i).aliases ≡ i.aliases
  unfolding ingest_all
  all_unnamed [] i h = refl
  all_unnamed (m ∷ metrics) i (n, h) =
      all_unnamed metrics (ingest py topic payload i m) h ∙ unnamed m i n

  -- The value of a metric that comes under a known alias.
  value_held :
      (m : Metric F) (i : Ingest F) (name device : String) (alias : FieldValue)
      → m.name ≡ none
      → m.alias ≡ some alias
      → topic.device ≡ some device
      → topic.msgtype ≡ "DDATA"
      → get alias i.aliases ≡ some name
      → get (tag_of device name) (ingest py topic payload i m).current_values
        ≡ some (reading_of py topic payload m)
  unfolding ingest learn resolved_name surface
  value_held m i name device alias n a d t g =
      rw n (rw a (rw g (rw d (rw t (get-put_self (tag_of device name) _ i.current_values)))))

-- The start of the loop over the metrics of a message.
abbrev start_of : {F : Type 0} → Topic → SubscriptionState F → Ingest F
start_of topic state = record {
  aliases = aliases_of topic.device state.aliases;
  current_values = state.current_values;
  events = state.events;
  msg_metrics = [];
}

handled :
    {F : Type 0} (py : Python F) (path : String) (topic : Topic) (payload_bytes : List ℕ)
    (payload : Payload F) (state : SubscriptionState F)
    → parse_topic path ≡ some topic
    → decode_payload py payload_bytes ≡ ok payload
    → on_message py path payload_bytes state ≡ ingest_payload py path topic payload state
unfolding on_message handle_message
handled py path topic payload_bytes payload state t d = rw (t, on_message) (rw d refl)

put_aliases :
    (o : Option String) (device : String) (x : Dict FieldValue String)
    (maps : Dict String (Dict FieldValue String))
    → o ≡ some device
    → aliases_of (some device) (store_aliases o x maps) ≡ x
put_aliases o device x maps e =
    subst (λ p. aliases_of (some device) (store_aliases p x maps) ≡ x) (sym e)
      (rw (get-put_self device x maps, aliases_of) refl)

birth_known :
    {F : Type 0} (py : Python F) (path : String) (topic : Topic) (payload : Payload F)
    (state : SubscriptionState F) (before : List (Metric F)) (m : Metric F) (name device : String)
    (alias : FieldValue)
    → topic.device ≡ some device
    → payload.metrics ≡ before ++ m ∷ []
    → m.name ≡ some name
    → m.alias ≡ some alias
    → get alias (aliases_of (some device) (ingest_payload py path topic payload state).aliases)
      ≡ some name
unfolding ingest_payload ingest_all
birth_known py path topic payload state before m name device alias d e n a =
    let end = ingest_all py topic payload payload.metrics (start_of topic state) in
    let known : get alias end.aliases ≡ some name =
      ap (λ ms. get alias (ingest_all py topic payload ms (start_of topic state)).aliases) e
      ∙ ap (λ i. get alias i.aliases)
          (ingest_all-append py topic payload before (m ∷ []) (start_of topic state))
      ∙ name_held py topic payload m _ name device alias n a d in
    ap (get alias) (put_aliases topic.device device end.aliases state.aliases d) ∙ known

value_of_data :
    {F : Type 0} (py : Python F) (path : String) (topic : Topic) (payload : Payload F)
    (state : SubscriptionState F) (before : List (Metric F)) (m : Metric F) (name device : String)
    (alias : FieldValue)
    → topic.device ≡ some device
    → topic.msgtype ≡ "DDATA"
    → payload.metrics ≡ before ++ m ∷ []
    → All (λ x. x.name ≡ none) before
    → m.name ≡ none
    → m.alias ≡ some alias
    → get alias (aliases_of (some device) state.aliases) ≡ some name
    → get (tag_of device name) (ingest_payload py path topic payload state).current_values
      ≡ some (reading_of py topic payload m)
unfolding ingest_payload ingest_all
value_of_data py path topic payload state before m name device alias d t e u n a known =
    let mid = ingest_all py topic payload before (start_of topic state) in
    let kept : get alias mid.aliases ≡ some name =
      ap (get alias) (all_unnamed py topic payload before (start_of topic state) u)
      ∙ ap (λ o. get alias (aliases_of o state.aliases)) d
      ∙ known in
    ap
      (λ ms.
        get (tag_of device name)
          (ingest_all py topic payload ms (start_of topic state)).current_values)
      e
    ∙ ap (λ i. get (tag_of device name) i.current_values)
        (ingest_all-append py topic payload before (m ∷ []) (start_of topic state))
    ∙ value_held py topic payload m mid name device alias n a d t kept

-- The float that is read of a value: Python's for a number, and none for any other.
abbrev pub Converts : {F : Type 0} → Result F → Option F → Type 0
Converts (ok x) v = v ≡ some x
Converts _ v = v ≡ none

abbrev pub IsFloatOf : {F : Type 0} → Python F → Value F → Option F → Type 0
IsFloatOf py (whole i) v = Converts (py.to_float (whole i)) v
IsFloatOf py (real x) v = Converts (py.to_float (real x)) v
IsFloatOf py _ v = v ≡ none

-- A metric's own time, or that of its message.
abbrev pub IsTimeOf : FieldValue → Option FieldValue → FieldValue → Type 0
IsTimeOf message (some own) t = t ≡ own
IsTimeOf message none t = t ≡ message

pub record IsReading {F : Type 0} (py : Python F) (payload : Payload F) (m : Metric F)
    (r : Reading F) : Type 0 where
  pub same_alias : r.alias ≡ m.alias
  pub float : IsFloatOf py m.value r.value
  pub time : IsTimeOf payload.timestamp_ms m.timestamp_ms r.timestamp_ms

converts : {F : Type 0} (r : Result F) → Converts r (elim r [ ok x ↦ some x | _ ↦ none ])
converts (ok x) = refl
converts (raised e) = refl
converts stuck = refl

as_float-IsFloatOf : {F : Type 0} (py : Python F) (v : Value F) → IsFloatOf py v (as_float py v)
unfolding as_float
as_float-IsFloatOf py (whole i) = converts (py.to_float (whole i))
as_float-IsFloatOf py (real x) = converts (py.to_float (real x))
as_float-IsFloatOf py nothing = refl
as_float-IsFloatOf py (flag b) = refl
as_float-IsFloatOf py (text t) = refl
as_float-IsFloatOf py (bytes b) = refl

time-IsTimeOf :
    (message : FieldValue) (own : Option FieldValue)
    → IsTimeOf message own (elim own [ none ↦ message | some t ↦ t ])
time-IsTimeOf message none = refl
time-IsTimeOf message (some t) = refl

reading_of-IsReading :
    {F : Type 0} (py : Python F) (topic : Topic) (payload : Payload F) (m : Metric F)
    → IsReading py payload m (reading_of py topic payload m)
unfolding reading_of
reading_of-IsReading py topic payload m = record {
  same_alias = refl;
  float = as_float-IsFloatOf py m.value;
  time = time-IsTimeOf payload.timestamp_ms m.timestamp_ms;
}

-- Let a message for a device end with a metric that has a name and an alias, and let the next message
-- be a DDATA of that device whose metrics have no name and whose last one has that alias; both decode.
-- Then `current_values` holds a reading under the device and the name: with the alias of the last metric,
-- its own time or else that of the message, and the float of its value where that is a number that
-- Python turns into one, and else no value (so for a flag or a text).
pub alias_resolves :
    {F : Type 0} (py : Python F) (birth_text data_text : String) (birth_topic data_topic : Topic)
    (birth_bytes data_bytes : List ℕ) (first values : Payload F) (state : SubscriptionState F)
    (more before : List (Metric F)) (named m : Metric F) (name device : String) (alias : FieldValue)
    → parse_topic birth_text ≡ some birth_topic
    → parse_topic data_text ≡ some data_topic
    → birth_topic.device ≡ some device
    → data_topic.device ≡ some device
    → data_topic.msgtype ≡ "DDATA"
    → decode_payload py birth_bytes ≡ ok first
    → decode_payload py data_bytes ≡ ok values
    → first.metrics ≡ more ++ named ∷ []
    → named.name ≡ some name
    → named.alias ≡ some alias
    → values.metrics ≡ before ++ m ∷ []
    → All (λ x. x.name ≡ none) before
    → m.name ≡ none
    → m.alias ≡ some alias
    → (r : Reading F) × (get
          (tag_of device name)
          (on_message py data_text data_bytes
            (on_message py birth_text birth_bytes state)).current_values
        ≡ some r)
      × IsReading py values m r
alias_resolves py birth_text data_text birth_topic data_topic birth_bytes data_bytes first values
      state more before named m name device alias bt dt bd dd ty bb db bm bn ba dm u n a =
    let mid = on_message py birth_text birth_bytes state in
    (
      reading_of py data_topic values m,
      ap (λ s. get (tag_of device name) s.current_values)
            (handled py data_text data_topic data_bytes values mid dt db)
          ∙ value_of_data py data_text data_topic values mid before m name device alias dd ty dm u n
              a
              (ap (λ s. get alias (aliases_of (some device) s.aliases))
                  (handled py birth_text birth_topic birth_bytes first state bt bb)
                ∙ birth_known py birth_text birth_topic first state more named name device alias bd
                    bm bn ba),
      reading_of-IsReading py data_topic values m,
    )
