-- ===== src/Print.antt =====
-- plugins/application/print/main.go: the metrics and events of the buses, printed to files. The channels
-- are queues; JSON encoding and the opening of files are arguments, and a file is the text written to it.
use Prim.Native.String.{◌++◌}
use sg_core.Prelude.{
  Bool, ◌&&◌, String, List, [], ◌∷◌, ◌++◌ as ◌+++◌, Option, none, some, Dict, Outcome, returns,
  ◌>>=◌, in_range,
}
use sg_core.Data.{Event, EventSeverity, Value, Metric, event_type_string}

pub record ConfigT : Type 0 where
  pub metric_output : String
  pub events_output : String

pub record EventOutput (F : Type 0) : Type 0 where
  pub index : String
  pub type : String
  pub publisher : String
  pub severity : EventSeverity
  pub message : String
  pub labels : Dict (Value F)
  pub annotations : Dict (Value F)

pub record Print (F : Type 0) : Type 0 where
  pub configuration : ConfigT
  pub e_chan : List (Event F)
  pub m_chan : List (Metric F)
  pub events_file : String
  pub metrics_file : String

-- json.MarshalIndent, with no text if it fails.
pub record Encoders (F : Type 0) : Type 0 where
  pub marshal_event : EventOutput F → Option String
  pub marshal_metric : Metric F → Option String

unfoldable pub new_print : {F : Type 0} → Print F
new_print = record {
  configuration = record { metric_output = "/dev/stdout"; events_output = "/dev/stdout" };
  e_chan = [];
  m_chan = [];
  events_file = "";
  metrics_file = "";
}

abbrev encoded : Option String → String
encoded none = ""
encoded (some text) = text

module _ {F : Type 0} where
  unfoldable pub receive_event : Event F → Print F → Print F
  receive_event e p = record p { e_chan = p.e_chan +++ e ∷ [] }

  unfoldable pub receive_metric : Metric F → Print F → Print F
  receive_metric m p = record p { m_chan = p.m_chan +++ m ∷ [] }

  unfoldable pub configure : (ConfigT → ConfigT × Option String) → Print F → Print F × Option String
  configure parse_config p =
      let parsed = parse_config p.configuration in (record p { configuration = parsed.0 }, parsed.1)

  -- Whether Run enters its loop: both files open.
  unfoldable pub is_writing : (String → Bool) → Print F → Bool
  is_writing opens p = opens p.configuration.metric_output && opens p.configuration.events_output

  module _ (enc : Encoders F) where
    -- An event that does not encode is written as an empty text.
    unfoldable pub print_event : Event F → Print F → Outcome (Print F)
    print_event e p = in_range (event_type_string e.type) >>= (λ type. returns (record p {
      events_file =
          p.events_file
          ++ ("Processed event:\n"
              ++ (encoded (
                    enc.marshal_event record {
                      index = e.index;
                      type = type;
                      publisher = e.publisher;
                      severity = e.severity;
                      message = e.message;
                      labels = e.labels;
                      annotations = e.annotations;
                    })
                  ++ "\n"));
    }))

    unfoldable pub print_metric : Metric F → Print F → Print F
    print_metric m p = record p {
      metrics_file =
          p.metrics_file ++ ("Processed metric:\n" ++ (encoded (enc.marshal_metric m) ++ "\n"));
    }

    -- A turn of the loop that takes an event, or a metric, from its channel.
    unfoldable pub take_event : Print F → Outcome (Print F)
    unfolding print_event
    take_event p = elim (p.e_chan) [
      | [] ↦ returns p
      | e ∷ es ↦ print_event e (record p { e_chan = es })
    ]

    unfoldable pub take_metric : Print F → Print F
    unfolding print_metric
    take_metric p = elim (p.m_chan) [ [] ↦ p | m ∷ ms ↦ print_metric m (record p { m_chan = ms }) ]
