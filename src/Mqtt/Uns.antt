-- ===== src/Mqtt/Uns.antt =====
-- packages/connectors/mqtt/src/rca_connector_mqtt/uns_service.py: the ingest of one message, and the
-- recent messages of server.py. The event sink keeps what it is sent.

pub mod Learning
pub mod Recent
use Prim.Native.String.{◌++◌ as str_append}
use industrial_rca.Prelude.{
  ℕ, zero, suc, ◌-◌, String, false, ◌||◌, Option, none, some, List, [], ◌∷◌, ◌++◌, length, drop,
  keep_if, mem_text, str_eq, if◌then◌else◌, string_eq,
}
use industrial_rca.Prelude.Dict.{Dict, get, put}
use industrial_rca.Mqtt.Sparkplug.{
  FieldValue, ℤ, pos, negsuc, Value, whole, real, Metric, Payload, Result, ok, raised, stuck,
  Python,
}
use industrial_rca.Mqtt.Sparkplug.Decode.{decode_payload}
use industrial_rca.Sdk.Subscription.{RingBuffer, append}
use industrial_rca.Mqtt.Topics.{Topic, parse_topic}
use industrial_rca.Mqtt.Aliases.{alias_eq}

-- `_as_float`.
unfoldable pub as_float : {F : Type 0} → Python F → Value F → Option F
as_float py (whole i) = elim (py.to_float (whole i)) [ ok x ↦ some x | _ ↦ none ]
as_float py (real x) = elim (py.to_float (real x)) [ ok y ↦ some y | _ ↦ none ]
as_float py _ = none

-- A value of `current_values`, a metric of a message, and a message of `recent`.
pub record Reading (F : Type 0) : Type 0 where
  pub value : Option F
  pub alias : Option FieldValue
  pub timestamp_ms : FieldValue

pub record MessageMetric (F : Type 0) : Type 0 where
  pub name : Option String
  pub alias : Option FieldValue
  pub value : Option F

pub record Message (F : Type 0) : Type 0 where
  pub topic : String
  pub group_id : String
  pub node_id : String
  pub device_id : Option String
  pub msgtype : String
  pub seq : FieldValue
  pub timestamp_ms : FieldValue
  pub metrics : List (MessageMetric F)

-- What is emitted for an alias that is learned.
pub record AliasEvent : Type 0 where
  pub raw_tag : String
  pub alias : FieldValue

pub record SubscriptionState (F : Type 0) : Type 0 where
  pub group_id : Option String
  pub node_id : Option String
  pub aliases : Dict String (Dict FieldValue String)
  pub current_values : Dict String (Reading F)
  pub recent : RingBuffer (Message F)
  pub events : List AliasEvent

-- The locals of the loop over the metrics, and what it changes of the state.
pub record Ingest (F : Type 0) : Type 0 where
  pub aliases : Dict FieldValue String
  pub current_values : Dict String (Reading F)
  pub events : List AliasEvent
  pub msg_metrics : List (MessageMetric F)

abbrev pub tag_of : String → String → String
tag_of device name = str_append device (str_append "/" name)

module _ {F : Type 0} (py : Python F) (topic : Topic) (payload : Payload F) where
  -- A metric with a name and an alias, on a device, declares the alias.
  unfoldable pub learn : Metric F → Ingest F → Ingest F
  learn m i = elim m.name [
    | none ↦ i
    | some name ↦ elim m.alias [
      | none ↦ i
      | some alias ↦ elim topic.device [
        | none ↦ i
        | some device ↦ record i {
          aliases = put alias name i.aliases;
          events = i.events ++ record { raw_tag = tag_of device name; alias = alias } ∷ [];
        }
      ]
    ]
  ]

  unfoldable pub resolved_name : Metric F → Dict FieldValue String → Option String
  resolved_name m aliases = elim m.name [
    | some name ↦ some name
    | none ↦ elim m.alias [ none ↦ none | some alias ↦ get alias aliases ]
  ]

  unfoldable pub reading_of : Metric F → Reading F
  unfolding as_float
  reading_of m = record {
    value = as_float py m.value;
    alias = m.alias;
    timestamp_ms = elim m.timestamp_ms [ none ↦ payload.timestamp_ms | some t ↦ t ];
  }

  unfoldable pub surface :
      Metric F → Option String → Dict String (Reading F) → Dict String (Reading F)
  unfolding reading_of
  surface m none current = current
  surface m (some name) current = elim topic.device [
    | none ↦ current
    | some device ↦
        if str_eq topic.msgtype "DDATA" || str_eq topic.msgtype "DBIRTH"
        then put (tag_of device name) (reading_of m) current
        else current
  ]

  unfoldable pub ingest : Ingest F → Metric F → Ingest F
  unfolding learn resolved_name surface
  ingest before m =
      let i : Ingest F = learn m before in
      let name = resolved_name m i.aliases in
      record i {
        current_values = surface m name i.current_values;
        msg_metrics =
            i.msg_metrics
            ++ record { name = name; alias = m.alias; value = as_float py m.value } ∷ [];
      }

  unfoldable pub ingest_all : List (Metric F) → Ingest F → Ingest F
  unfolding ingest
  ingest_all [] i = i
  ingest_all (m ∷ metrics) i = ingest_all metrics (ingest i m)

-- `alias_maps.setdefault(device, {})`, and the map after the loop.
abbrev pub aliases_of :
    Option String → Dict String (Dict FieldValue String) → Dict FieldValue String
aliases_of none maps = []
aliases_of (some device) maps = elim (get device maps) [ none ↦ [] | some aliases ↦ aliases ]

abbrev pub store_aliases :
    Option String
    → Dict FieldValue String
    → Dict String (Dict FieldValue String)
    → Dict String (Dict FieldValue String)
store_aliases none aliases maps = maps
store_aliases (some device) aliases maps = put device aliases maps

-- `recent_msgtypes`, as the constructor sets it.
abbrev recent_msgtypes : List String
recent_msgtypes = "DDATA" ∷ "DBIRTH" ∷ []

unfoldable pub ingest_payload :
    {F : Type 0} → Python F → String → Topic → Payload F → SubscriptionState F → SubscriptionState F
unfolding ingest_all append
ingest_payload {F = F} py text topic payload state =
    let start : Ingest F = record {
      aliases = aliases_of topic.device state.aliases;
      current_values = state.current_values;
      events = state.events;
      msg_metrics = [];
    } in
    let end : Ingest F = ingest_all py topic payload payload.metrics start in
    record {
      group_id = some topic.group;
      node_id = some topic.node;
      aliases = store_aliases topic.device end.aliases state.aliases;
      current_values = end.current_values;
      recent =
          if mem_text topic.msgtype recent_msgtypes
          then append
              (record {
                topic = text;
                group_id = topic.group;
                node_id = topic.node;
                device_id = topic.device;
                msgtype = topic.msgtype;
                seq = payload.seq;
                timestamp_ms = payload.timestamp_ms;
                metrics = end.msg_metrics;
              })
              state.recent
          else state.recent;
      events = end.events;
    }

unfoldable pub handle_message :
    {F : Type 0} → Python F → String → List ℕ → SubscriptionState F → Result (SubscriptionState F)
unfolding parse_topic ingest_payload
handle_message py text payload_bytes state = elim (parse_topic text) [
  | none ↦ ok state
  | some topic ↦ elim (decode_payload py payload_bytes) [
    | ok payload ↦ ok (ingest_payload py text topic payload state)
    | raised e ↦ raised e
    | stuck ↦ stuck
  ]
]

-- `_on_message`: a message that raises is dropped.
unfoldable pub on_message :
    {F : Type 0} → Python F → String → List ℕ → SubscriptionState F → SubscriptionState F
unfolding handle_message
on_message py text payload_bytes state = elim (handle_message py text payload_bytes state) [
  | ok after ↦ after
  | _ ↦ state
]

-- `_build_recent` of server.py, with the rows as they are kept; `rows[-limit:]` is all of them at 0.
unfoldable pub last_rows : {F : Type 0} → ℤ → List (Message F) → List (Message F)
last_rows (pos zero) rows = rows
last_rows (pos (suc n)) rows = drop (length rows - suc n) rows
last_rows (negsuc n) rows = rows

unfoldable pub build_recent :
    {F : Type 0} → SubscriptionState F → Option String → ℤ → List (Message F)
unfolding last_rows
build_recent state none limit = last_rows limit state.recent.items
build_recent state (some device) limit =
    last_rows limit (
      keep_if (λ r. elim r.device_id [ none ↦ false | some d ↦ str_eq d device ])
        state.recent.items)
