-- ===== src/Mqtt/Topics.antt =====
-- packages/connectors/mqtt/src/rca_connector_mqtt/uns_service.py: `parse_topic`.
use Prim.Native.Char.{code}
use Prim.Native.String.{◌++◌ as str_append}
use industrial_rca.Prelude.{
  String, Option, none, some, List, [], ◌∷◌, str_eq, ◌==◌, if◌then◌else◌, string_eq,
}

-- `topic.split("/")`.
abbrev with_head : String → List String → List String
with_head c [] = c ∷ []
with_head c (p ∷ parts) = str_append c p ∷ parts

unfoldable pub split_topic : String → List String
split_topic String.[] = "" ∷ []
split_topic (String.◌∷◌ c s) =
    let rest = split_topic s in
    if code c == b'/' then "" ∷ rest else with_head (String.◌∷◌ c String.[]) rest

pub record Topic : Type 0 where
  pub group : String
  pub msgtype : String
  pub node : String
  pub device : Option String

abbrev first_of : List String → Option String
first_of [] = none
first_of (p ∷ parts) = some p

topic_of : List String → Option Topic
topic_of (v ∷ group ∷ msgtype ∷ node ∷ more) =
    if str_eq v "spBv1.0"
    then some (record { group = group; msgtype = msgtype; node = node; device = first_of more })
    else none
topic_of _ = none

unfoldable pub parse_topic : String → Option Topic
unfolding split_topic topic_of
parse_topic topic = topic_of (split_topic topic)
