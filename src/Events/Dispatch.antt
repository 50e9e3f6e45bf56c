-- ===== src/Events/Dispatch.antt =====
-- plugins/handler/events/main.go, with the map of handlers/handlers.go: a message goes to the handler of
-- its source. `none` is a handler that has not returned within the fuel of its loop.
use Prim.Native.String.{◌++◌}
use sg_core.Prelude.{
  ℕ, ◌+◌, ◌%◌, ◌^◌, Bool, String, str_eq, [], ◌∷◌, Option, none, some, Dict, lookup, insert,
  if◌then◌else◌, Outcome, returns, panics, ◌>>=◌, inc64,
}
use sg_core.Data.{Event, str, error, critical}
use sg_core.Handler.{Published, publish_event, publish_metric, own_metric}
use sg_core.Events.Source.{Patterns, source_string, set_from_string, set_from_message, recognizers}
use sg_core.Events.Ceilometer
use sg_core.Events.Ceilometer.{ceilometer_event_handler}
use sg_core.Events.Collectd
use sg_core.Events.Collectd.{collectd_event_handler}

-- What a handler does: it has not returned, it panics, or it returns with or without an error.
abbrev pub Run : Type 0 → Type 0
Run F = Option (Outcome (Published F × Option String))

-- EventsHandler; there is no configuration before Config.
pub record EventsHandler (F : Type 0) : Type 0 where
  pub events_received : Dict ℕ
  pub strict_source : Option String
  pub out : Published F

abbrev pub identify : String
identify = "events"

-- The packages of both sources and the regular expressions, with the order of the map of recognizers.
pub record Packages (F : Type 0) : Type 0 where
  pub of_ceilometer : Ceilometer.Packages F
  pub of_collectd : Collectd.Packages F
  pub patterns : Patterns
  pub collectd_first : Bool
  pub float64 : ℕ → F

unfoldable pub new_events_handler : {F : Type 0} → Published F → EventsHandler F
new_events_handler out = record { events_received = []; strict_source = none; out = out }

-- The source of a message: the strict one, if there is one; a name that is not known leaves source 0.
unfoldable pub source_of : Patterns → Bool → String → String → ℕ
unfolding set_from_string set_from_message
source_of patterns collectd_first strict msg =
    if str_eq strict ""
    then set_from_message (recognizers patterns collectd_first) msg 0
    else (set_from_string strict 0).0

-- The counter of a source, which starts at 0.
unfoldable pub count_event : String → Dict ℕ → Dict ℕ
count_event name received = elim (lookup name received) [
  | none ↦ insert name (inc64 0) received
  | some n ↦ insert name (inc64 n) received
]

module _ {F : Type 0} (p : Packages F) where
  -- The map of handlers; a name that is not in it gives the nil function, whose call panics.
  unfoldable pub call_handler : ℕ → String → String → Published F → Run F
  unfolding ceilometer_event_handler collectd_event_handler
  call_handler fuel name msg out =
      if str_eq name "ceilometer"
      then some (ceilometer_event_handler p.of_ceilometer msg out)
      else if str_eq name "collectd"
      then collectd_event_handler p.of_collectd fuel msg out
      else some panics

  unfoldable pub parse_failure : String → String → Event F
  parse_failure err msg = record {
    index = identify;
    time = p.float64 0;
    type = error;
    publisher = "";
    severity = critical;
    labels =
        ("error", str err)
        ∷ ("context", str msg)
        ∷ ("message", str "failed to parse event - disregarding")
        ∷ [];
    annotations = ("description", str "internal smartgateway event handler error") ∷ [];
    message = "";
  }

  -- What Handle makes of what the handler of the source returned.
  unfoldable pub finish :
      String
      → Bool
      → EventsHandler F
      → Published F × Option String
      → EventsHandler F × Option String
  unfolding parse_failure publish_event
  finish msg report_errors eh (out, none) = (record eh { out = out }, none)
  finish msg report_errors eh (out, some err) = (
    record eh { out = if report_errors then publish_event (parse_failure err msg) out else out },
    some err,
  )

  -- Handle, with the name of the source.
  unfoldable pub handle_as :
      ℕ
      → String
      → String
      → Bool
      → EventsHandler F
      → Option (Outcome (EventsHandler F × Option String))
  unfolding count_event call_handler finish
  handle_as fuel name msg report_errors eh =
      let counted : EventsHandler F = record eh {
        events_received = count_event name eh.events_received;
      } in
      elim (call_handler fuel name msg eh.out) [
        | none ↦ none
        | some run ↦ some (run >>= λ done. returns (finish msg report_errors counted done))
      ]

  -- Handle: without a configuration its dereference panics.
  unfoldable pub handle :
      ℕ → String → Bool → EventsHandler F → Option (Outcome (EventsHandler F × Option String))
  unfolding source_of handle_as
  handle fuel msg report_errors eh = elim (eh.strict_source) [
    | none ↦ some panics
    | some strict ↦ elim (source_string (source_of p.patterns p.collectd_first strict msg)) [
      | panics ↦ some panics
      | returns name ↦ handle_as fuel name msg report_errors eh
    ]
  ]

  -- The counters that Run sends for each tick of its timer, and their sum.
  unfoldable pub send_counters : Dict ℕ → ℕ → Published F → Published F
  unfolding own_metric publish_metric
  send_counters [] total out =
      publish_metric (own_metric p.float64 "sg_total_events_received" total) out
  send_counters ((source, value) ∷ rest) total out =
      send_counters rest ((total + value) % 2 ^ 64)
        (publish_metric (own_metric p.float64 ("sg_" ++ (source ++ "_events_received")) value) out)

  unfoldable pub run_tick : EventsHandler F → EventsHandler F
  unfolding send_counters
  run_tick eh = record eh { out = send_counters eh.events_received 0 eh.out }

-- Config, with what config.ParseConfig makes of the configuration: it may set the source and fail.
unfoldable pub configure :
    {F : Type 0}
    → (String → String × Option String)
    → EventsHandler F
    → EventsHandler F × Option String
configure parse_config eh =
    let parsed = parse_config "" in (record eh { strict_source = some parsed.0 }, parsed.1)
