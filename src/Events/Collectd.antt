-- ===== src/Events/Collectd.antt =====
-- plugins/handler/events/collectd/collectd.go. Decoding JSON, the regular expressions, misc.MergeMaps and
-- the conversion to float64 are arguments. The loop of sanitize runs on fuel: `none` is a loop that the
-- fuel did not end.
use Prim.Native.String.{◌++◌, len}
use text.Mathlib.Text.{starts_with}
use sg_core.Prelude.{
  ℕ, zero, suc, Bool, ltb, String, str_eq, List, [], ◌∷◌, ◌++◌ as ◌+++◌, Option, none, some, ℤ,
  Dict, lookup, if◌then◌else◌, Outcome, returns, panics, ◌>>=◌, replace_all, before_last, ◌⊎◌, inl,
  inr,
}
use sg_core.Data.{
  Event, EventSeverity, unknown, info, warning, critical, event, Value, str, as_text,
}
use sg_core.Handler.{Published, publish_event}
use sg_core.Events.Time.{epoch_from_format}

-- The severity of a text; `none` for one that is not in the map.
unfoldable pub collectd_alert_severity : String → Option EventSeverity
collectd_alert_severity s =
    if str_eq s "OKAY"
    then some info
    else if str_eq s "WARNING"
    then some warning
    else if str_eq s "FAILURE"
    then some critical
    else none

abbrev pub source : String
source = "collectd"

pub record EventMessage (F : Type 0) : Type 0 where
  pub labels : Dict (Value F)
  pub annotations : Dict (Value F)
  pub starts_at : String

-- The regular expressions: what the "ves" field holds, whether others are found, replacements.
pub record Rexes : Type 0 where
  pub find_ves : String → Option String
  pub replace_ves : String → String → String
  pub unquote_nested : String → String
  pub finds_invalid_ves : String → Bool
  pub finds_remained_nested : String → Bool
  pub finds_array : String → Bool

pub record Packages (F : Type 0) : Type 0 where
  pub rexes : Rexes
  pub unmarshal : String → String ⊎ List (EventMessage F)
  pub merge_maps : Dict (Value F) → Dict (Value F) → Dict (Value F)
  pub time_parse : String → String → Option ℤ
  pub float64_of_int : ℤ → F

module _ (r : Rexes) where
  -- One round takes the text `cleaned` over unless it has an invalid string, and goes on while nested
  -- quotes remain in it.
  unfoldable pub clean_loop : ℕ → String → Option String
  clean_loop zero substr = none
  clean_loop (suc fuel) substr =
      let cleaned = r.unquote_nested substr in
      let substr' : String = if r.finds_invalid_ves cleaned then substr else cleaned in
      let again = clean_loop fuel substr' in
      if r.finds_remained_nested cleaned then again else some substr'

  unfoldable pub with_brackets : String → String
  with_brackets output = if r.finds_array output then output else "[" ++ (output ++ "]")

  unfoldable pub sanitize : ℕ → String → Option String
  unfolding clean_loop with_brackets
  sanitize fuel jsondata = elim (r.find_ves jsondata) [
    | none ↦ some jsondata
    | some sub ↦ elim (clean_loop fuel sub) [
      | none ↦ none
      | some substr ↦ some (with_brackets (r.replace_ves jsondata ("\"ves\":{" ++ (substr ++ "}"))))
    ]
  ]

-- The name of an event before its prefix: the alert's, or the check's.
unfoldable pub alert_name : {F : Type 0} → Dict (Value F) → String
unfolding as_text
alert_name labels = elim (as_text (lookup "alertname" labels)) [
  | some name ↦ name
  | none ↦ elim (as_text (lookup "check" labels)) [ some v ↦ replace_all b'-' "_" v | none ↦ "" ]
]

-- The last term is cut off if the underscore before it stands behind the ninth byte.
unfoldable pub strip_type : String → String
strip_type name = elim (before_last b'_' name) [
  | none ↦ name
  | some front ↦ if ltb 9 (len front) then front else name
]

unfoldable pub with_source : String → String
with_source name = if starts_with name "collectd_" then name else source ++ ("_" ++ name)

unfoldable pub publisher_of : {F : Type 0} → Dict (Value F) → String
unfolding as_text
publisher_of labels = elim (as_text (lookup "instance" labels)) [ some s ↦ s | none ↦ "unknown" ]

-- The assertion that the severity is a text panics on other values.
unfoldable pub severity_of : {F : Type 0} → Option (Value F) → Outcome EventSeverity
unfolding collectd_alert_severity
severity_of none = returns unknown
severity_of (some (str s)) = elim (collectd_alert_severity s) [
  | some severity ↦ returns severity
  | none ↦ returns unknown
]
severity_of (some v) = panics

module _ {F : Type 0} (p : Packages F) where
  unfoldable pub message_event : EventMessage F → EventSeverity → Event F
  unfolding alert_name strip_type with_source publisher_of epoch_from_format
  message_event msg severity = record {
    index = with_source (strip_type (alert_name msg.labels));
    time = p.float64_of_int (epoch_from_format p.time_parse msg.starts_at);
    type = event;
    publisher = publisher_of msg.labels;
    severity = severity;
    labels = msg.labels;
    annotations =
        p.merge_maps msg.annotations
          (("source_type", str source) ∷ ("processed_by", str "sg") ∷ []);
    message = "";
  }

  -- The loop of Parse over the messages.
  unfoldable pub parse_messages : List (EventMessage F) → List (Event F) → Outcome (List (Event F))
  unfolding severity_of message_event
  parse_messages [] events = returns events
  parse_messages (msg ∷ msgs) events = severity_of (lookup "severity" msg.labels) >>= λ severity.
      parse_messages msgs (events +++ message_event msg severity ∷ [])

  -- Parse, once the message is sanitized; `blob` is in the text of its error.
  unfoldable pub parse_sanitized : String → String → Outcome (String ⊎ List (Event F))
  unfolding parse_messages
  parse_sanitized blob output = elim (p.unmarshal output) [
    | inl err ↦ returns (inl ("could not parse message: << " ++ (blob ++ (" >>: " ++ err))))
    | inr message ↦ parse_messages message [] >>= λ events. returns (inr events)
  ]

  unfoldable pub publish_events : List (Event F) → Published F → Published F
  unfolding publish_event
  publish_events [] out = out
  publish_events (e ∷ es) out = publish_events es (publish_event e out)

  -- collectdEventHandler of plugins/handler/events/handlers/handlers.go.
  unfoldable pub collectd_event_handler :
      ℕ → String → Published F → Option (Outcome (Published F × Option String))
  unfolding sanitize parse_sanitized publish_events
  collectd_event_handler fuel blob out = elim (sanitize p.rexes fuel blob) [
    | none ↦ none
    | some output ↦ some (
        parse_sanitized blob output >>= λ parsed. elim parsed [
          | inl err ↦ returns (out, some err)
          | inr events ↦ returns (publish_events events out, none)
        ])
  ]
