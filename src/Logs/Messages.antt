-- ===== src/Logs/Messages.antt =====
-- The handler of plugins/handler/logs/main.go. Decoding JSON, the date of a time and the conversions to
-- float64 are arguments.
use Prim.Native.String.{◌++◌}
use sg_core.Prelude.{
  ℕ, Bool, false, String, [], ◌∷◌, Option, none, some, ℤ, if◌then◌else◌, Outcome, returns, ◌>>=◌,
  inc64, decimal, two_digits, replace_all, Dict, lookup, remove, ◌⊎◌, inl, inr,
}
use sg_core.Data.{Event, Value, as_text, EventSeverity, log, str, error, critical}
use sg_core.Handler.{Published, publish_event, publish_metric, own_metric}
use sg_core.Logs.Severity.{LogConfig, get_severity_from_log, to_event_severity, time_from_format}

pub record Handler (F : Type 0) : Type 0 where
  pub total_logs_received : ℕ
  pub config : LogConfig
  pub out : Published F

abbrev pub identify : String
identify = "log"

-- The fields of a log as text: `none` for a field that is missing or is not a text.
unfoldable pub text_field : {F : Type 0} → String → Dict (Value F) → Option String
unfolding as_text
text_field name fields = as_text (lookup name fields)

-- An index is named by the prefix, the host and the day.
unfoldable pub log_index : String → String → ℕ × ℕ × ℕ → String
log_index prefix hostname (year, month, day) =
    prefix
    ++ ("-"
        ++ (replace_all b'-' "_" hostname
            ++ ("." ++ (decimal year ++ ("." ++ (two_digits month ++ ("." ++ two_digits day)))))))

-- What the handler relies on of other packages.
pub record Packages (F Time : Type 0) : Type 0 where
  pub unmarshal : String → String ⊎ Dict (Value F)
  pub compile : String → Option (String → Bool)
  pub to_lower : String → String
  pub time_parse : String → String → Option Time
  pub unix : Time → ℤ
  pub date : Time → ℕ × ℕ × ℕ
  pub float64_of_int : ℤ → F
  pub float64 : ℕ → F

module _ {F Time : Type 0} (p : Packages F Time) where
  unfoldable pub log_event :
      LogConfig → Dict (Value F) → String → String → Time → EventSeverity → Event F
  unfolding log_index
  log_event config fields msg hostname t severity = record {
    index = log_index config.index_prefix hostname (p.date t);
    time = p.float64_of_int (p.unix t);
    type = log;
    publisher = hostname;
    severity = severity;
    labels = remove config.timestamp_field (remove config.message_field fields);
    annotations = [];
    message = msg;
  }

  -- parse, once the message is found: its time and host.
  unfoldable pub parse_fields : LogConfig → Dict (Value F) → String → Outcome (String ⊎ Event F)
  unfolding text_field log_event
  parse_fields config fields msg =
      get_severity_from_log p.compile p.to_lower fields config >>= (λ severity.
        elim (text_field config.hostname_field fields) [
          | none ↦
              returns
                (inl ("unable to find the hostname under field called: " ++ config.hostname_field))
          | some hostname ↦ elim (text_field config.timestamp_field fields) [
            | none ↦ returns (
                inl ("unable to find the timestamp under field called: " ++ config.timestamp_field))
            | some timestring ↦ elim (time_from_format p.time_parse timestring) [
              | none ↦ returns (inl "unable to parse timestamp")
              | some t ↦ to_event_severity severity >>= (λ evt_severity.
                  returns (inr (log_event config fields msg hostname t evt_severity)))
            ]
          ]
        ])

  unfoldable pub parse : LogConfig → String → Outcome (String ⊎ Event F)
  unfolding parse_fields text_field
  parse config blob = elim (p.unmarshal blob) [
    | inl err ↦ returns (inl err)
    | inr fields ↦ elim (text_field config.message_field fields) [
      | none ↦
          returns
            (inl ("unable to find a log message under field called: " ++ config.message_field))
      | some msg ↦ parse_fields config fields msg
    ]
  ]

  unfoldable pub parse_error_event : String → String → Event F
  parse_error_event err msg = record {
    index = identify;
    time = p.float64 0;
    type = error;
    publisher = "";
    severity = critical;
    labels =
        ("error", str err)
        ∷ ("context", str msg)
        ∷ ("message", str "failed to parse log - disregarding")
        ∷ [];
    annotations = ("description", str "internal smartgateway log handler error") ∷ [];
    message = "";
  }

  -- Handle publishes what parse made of the message.
  unfoldable pub publish_parsed : String → Bool → (String ⊎ Event F) → Handler F → Handler F
  unfolding parse_error_event publish_event
  publish_parsed msg report_errors (inr event) l = record l { out = publish_event event l.out }
  publish_parsed msg report_errors (inl err) l =
      if report_errors
      then record l { out = publish_event (parse_error_event err msg) l.out }
      else l

  -- Handle: the variable err that it returns is not the one that parse sets, so that the error it
  -- returns is nil.
  unfoldable pub handle : String → Bool → Handler F → Outcome (Handler F × Option String)
  unfolding parse publish_parsed
  handle msg report_errors l = parse l.config msg >>= (λ parsed. returns (
    publish_parsed msg report_errors parsed
        (record l { total_logs_received = inc64 l.total_logs_received }),
    none,
  ))

  -- What Run sends for each tick of its timer.
  unfoldable pub run_tick : Handler F → Handler F
  unfolding own_metric publish_metric
  run_tick l = record l {
    out =
        publish_metric (own_metric p.float64 "sg_total_logs_received" l.total_logs_received) l.out;
  }

-- New; Config starts from the same configuration.
unfoldable pub new_handler : {F : Type 0} → Published F → Handler F
new_handler out = record {
  total_logs_received = 0;
  config = record {
    message_field = "";
    timestamp_field = "";
    hostname_field = "";
    severity_field = "";
    correct_severity = false;
    index_prefix = "sglogs";
  };
  out = out;
}

-- Config, with what config.ParseConfig makes of the text: it may set fields and fail.
unfoldable pub configure :
    {F : Type 0} → (LogConfig → LogConfig × Option String) → Handler F → Handler F × Option String
unfolding new_handler
configure parse_config l =
    let parsed = parse_config (new_handler l.out).config in
    (record l { config = parsed.0 }, parsed.1)
