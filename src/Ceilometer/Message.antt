-- ===== src/Ceilometer/Message.antt =====
-- plugins/handler/ceilometer-metrics/pkg/ceilometer/ceilometer.go. Decoding JSON and message pack and
-- the regular expressions are arguments.
use sg_core.Prelude.{
  ◌==◌, String, List, [], ◌∷◌, ◌++◌, Option, none, some, if◌then◌else◌, length, join, Dict, ◌⊎◌,
  inl, inr,
}
use Prim.Native.String.{◌++◌ as ◌+++◌}

pub record Metadata : Type 0 where
  pub host : String
  pub name : String
  pub display_name : String
  pub instance_host : String
  pub user_metadata : Dict String

pub record CeilometerMetric (F : Type 0) : Type 0 where
  pub source : String
  pub counter_name : String
  pub counter_type : String
  pub counter_unit : String
  pub counter_volume : F
  pub user_id : String
  pub user_name : String
  pub project_id : String
  pub project_name : String
  pub resource_id : String
  pub timestamp : String
  pub resource_metadata : Metadata

pub record Message (F : Type 0) : Type 0 where
  pub publisher : String
  pub payload : List (CeilometerMetric F)

pub record OsloSchema : Type 0 where
  pub oslo_message : String

pub record Ceilometer : Type 0 where
  pub schema : OsloSchema

-- What decoding does. `unmarshal_schema` fills a schema that is there: a field that the JSON lacks
-- keeps its value. A message that fails to decode is given by the error; the text null, for which the
-- pointer to the message is nil, is left out.
pub record Decoders (F : Type 0) : Type 0 where
  pub unmarshal_schema : String → OsloSchema → OsloSchema × Option String
  pub unmarshal_message : String → String ⊎ Message F
  pub unpack_metric : String → String ⊎ CeilometerMetric F
  pub unpack_message : String → String ⊎ Message F
  pub unquote_nested : String → String
  pub find_payload : String → List String
  pub replace_payload : String → String → String

unfoldable pub new_ceilometer : Ceilometer
new_ceilometer = record { schema = record { oslo_message = "" } }

-- item[1:]
abbrev pub rest_of : List String → List String
rest_of [] = []
rest_of (s ∷ rest) = rest

module _ {F : Type 0} (d : Decoders F) where
  unfoldable pub sanitize : Ceilometer → String
  sanitize c =
      let sanitized = d.unquote_nested c.schema.oslo_message in
      let item = d.find_payload sanitized in
      if length item == 2
      then d.replace_payload sanitized ("\"payload\": [" +++ (join "," (rest_of item) +++ "]"))
      else sanitized

  -- ParseInputJSON, from what decoding makes of the schema.
  unfoldable pub parse_decoded : OsloSchema × Option String → Ceilometer × (String ⊎ Message F)
  unfolding sanitize
  parse_decoded (schema, some err) = (record { schema = schema }, inl err)
  parse_decoded (schema, none) =
      (record { schema = schema }, d.unmarshal_message (sanitize (record { schema = schema })))

  unfoldable pub parse_input_json : String → Ceilometer → Ceilometer × (String ⊎ Message F)
  unfolding parse_decoded
  parse_input_json blob c = parse_decoded (d.unmarshal_schema blob c.schema)

  unfoldable pub parse_input_msg_pack : String → String ⊎ Message F
  parse_input_msg_pack blob = elim (d.unpack_metric blob) [
    | inl err ↦ inl err
    | inr metric ↦ elim (d.unpack_message blob) [
      | inl err ↦ inl err
      | inr msg ↦ inr (record msg { payload = msg.payload ++ metric ∷ [] })
    ]
  ]
