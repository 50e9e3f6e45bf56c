-- ===== src/Events/Ceilometer.antt =====
-- plugins/handler/events/ceilometer/ceilometer.go. Decoding JSON, the regular expression, the printing
-- of a value and what is done with float64 are arguments.
use Prim.Native.String.{◌++◌}
use text.Mathlib.Text.{starts_with}
use sg_core.Prelude.{
  ℕ, Bool, ltb, String, str_eq, List, [], ◌∷◌, length, Option, none, some, ℤ, Dict, insert,
  if◌then◌else◌, Outcome, returns, panics, ◌>>=◌, split, join, replace_all, init, ◌⊎◌, inl, inr,
}
use sg_core.Data.{
  Event, EventSeverity, unknown, info, warning, critical, event, Value, num, str, arr, nil, cons,
}
use sg_core.Handler.{Published, publish_event}
use sg_core.Events.Time.{epoch_from_format}

-- A priority that is not in the map has the zero value of a severity.
unfoldable pub ceilometer_alert_severity : String → EventSeverity
ceilometer_alert_severity s =
    if str_eq s "audit"
    then info
    else if str_eq s "info"
    then info
    else if str_eq s "sample"
    then info
    else if str_eq s "warn"
    then warning
    else if str_eq s "warning"
    then warning
    else if str_eq s "critical"
    then critical
    else if str_eq s "error"
    then critical
    else if str_eq s "AUDIT"
    then info
    else if str_eq s "INFO"
    then info
    else if str_eq s "SAMPLE"
    then info
    else if str_eq s "WARN"
    then warning
    else if str_eq s "WARNING"
    then warning
    else if str_eq s "CRITICAL"
    then critical
    else if str_eq s "ERROR"
    then critical
    else unknown

abbrev pub generic_suffix : String
generic_suffix = "_generic"

abbrev pub source : String
source = "ceilometer"

pub record OsloRequest : Type 0 where
  pub oslo_version : String
  pub oslo_message : String

pub record OsloPayload (F : Type 0) : Type 0 where
  pub message_id : String
  pub event_type : String
  pub generated : String
  pub traits : List (Value F)

pub record OsloMessage (F : Type 0) : Type 0 where
  pub event_type : String
  pub publisher_id : String
  pub timestamp : String
  pub priority : String
  pub payload : List (OsloPayload F)

-- What the handler relies on of other packages. A message that fails to decode is given by the error.
pub record Packages (F : Type 0) : Type 0 where
  pub unmarshal_raw : String → String ⊎ OsloRequest
  pub unmarshal_message : String → String ⊎ OsloMessage F
  pub unquote_nested : String → String
  pub print : Value F → String
  pub is_two : F → Bool
  pub time_parse : String → String → Option ℤ
  pub float64_of_int : ℤ → F
  pub float64 : ℕ → F

unfoldable pub build_name : String → String
build_name event_type =
    let et_parts = split b'.' event_type in
    let output : String =
      if ltb 1 (length et_parts) then join "_" (init et_parts) else event_type in
    let clean = replace_all b'-' "_" output in
    if starts_with clean "ceilometer_" then clean else "ceilometer_" ++ clean

-- v.(string) and v.(float64), which panic on values of other types.
abbrev pub assert_string : {F : Type 0} → Value F → Outcome String
assert_string (str s) = returns s
assert_string v = panics

abbrev pub assert_float : {F : Type 0} → Value F → Outcome F
assert_float (num n) = returns n
assert_float v = panics

module _ {F : Type 0} (p : Packages F) where
  unfoldable pub invalid_trait : Value F → String
  invalid_trait v = "parsed invalid trait in event: '" ++ (p.print v ++ "'")

  -- The entry that a trait of three elements makes, by its type: a number for 2, else a text.
  unfoldable pub trait_entry : Value F → F → Value F → Outcome (String × Value F)
  trait_entry name trait_type v =
      if p.is_two trait_type
      then (assert_string name >>= λ key. assert_float v >>= λ n. returns (key, num n))
      else (assert_string name >>= λ key. assert_string v >>= λ s. returns (key, str s))

  unfoldable pub typed_trait :
      Value F → Value F → Value F → Value F → Outcome (String ⊎ String × Value F)
  unfolding trait_entry invalid_trait
  typed_trait whole name (num n) v = trait_entry name n v >>= λ entry. returns (inr entry)
  typed_trait whole name t v = returns (inl (invalid_trait whole))

  -- A trait is an array of a name, a type and a value.
  unfoldable pub format_trait : Value F → Outcome (String ⊎ String × Value F)
  unfolding typed_trait invalid_trait
  format_trait (arr (cons name (cons t (cons v nil)))) =
      typed_trait (arr (cons name (cons t (cons v nil)))) name t v
  format_trait v = returns (inl (invalid_trait v))

  unfoldable pub traits_loop : List (Value F) → Dict (Value F) → Outcome (String ⊎ Dict (Value F))
  unfolding format_trait
  traits_loop [] new_traits = returns (inr new_traits)
  traits_loop (v ∷ vs) new_traits = format_trait v >>= λ r. elim r [
    | inl err ↦ returns (inl err)
    | inr (key, value) ↦ traits_loop vs (insert key value new_traits)
  ]

  unfoldable pub traits_formatted : OsloPayload F → Outcome (String ⊎ Dict (Value F))
  unfolding traits_loop
  traits_formatted op = traits_loop op.traits []

  unfoldable pub event_name : OsloMessage F → OsloPayload F → String
  unfolding build_name
  event_name om op =
      if str_eq op.event_type ""
      then (if str_eq om.event_type ""
          then build_name (source ++ generic_suffix)
          else build_name om.event_type)
      else build_name op.event_type

  unfoldable pub get_time_as_epoch : OsloMessage F → OsloPayload F → F
  unfolding epoch_from_format
  get_time_as_epoch om op =
      if str_eq op.generated ""
      then (if str_eq om.timestamp ""
          then p.float64 0
          else p.float64_of_int (epoch_from_format p.time_parse om.timestamp))
      else p.float64_of_int (epoch_from_format p.time_parse op.generated)

  unfoldable pub payload_event : OsloMessage F → OsloPayload F → Dict (Value F) → Event F
  unfolding event_name get_time_as_epoch ceilometer_alert_severity
  payload_event om op traits = record {
    index = event_name om op;
    time = get_time_as_epoch om op;
    type = event;
    publisher = om.publisher_id;
    severity = ceilometer_alert_severity om.priority;
    labels = traits;
    annotations = ("source_type", str source) ∷ ("processed_by", str "sg") ∷ [];
    message = "";
  }

  -- PublishEvents from a payload on: the error ends it.
  unfoldable pub publish_events :
      OsloMessage F → List (OsloPayload F) → Published F → Outcome (Published F × Option String)
  unfolding traits_formatted payload_event publish_event
  publish_events om [] out = returns (out, none)
  publish_events om (op ∷ ops) out = traits_formatted op >>= λ r. elim r [
    | inl err ↦ returns (out, some err)
    | inr traits ↦ publish_events om ops (publish_event (payload_event om op traits) out)
  ]

  unfoldable pub parse : String → String ⊎ OsloMessage F
  parse blob = elim (p.unmarshal_raw blob) [
    | inl err ↦ inl err
    | inr request ↦ p.unmarshal_message (p.unquote_nested request.oslo_message)
  ]

  -- ceilometerEventHandler of plugins/handler/events/handlers/handlers.go.
  unfoldable pub ceilometer_event_handler :
      String → Published F → Outcome (Published F × Option String)
  unfolding parse publish_events
  ceilometer_event_handler blob out = elim (parse blob) [
    | inl err ↦ returns (out, some err)
    | inr om ↦ publish_events om om.payload out
  ]
