-- ===== src/Alertmanager/Generate.antt =====
-- plugins/application/alertmanager/pkg/lib/generators.go and plugins/application/alertmanager/main.go. What
-- misc.AssimilateMap makes of labels, the time, JSON and HTTP are arguments. The channel of alerts is a
-- queue, and a goroutine that sends an alert is one step.
use Prim.Native.String.{◌++◌}
use sg_core.Prelude.{
  Bool, String, List, [], ◌∷◌, ◌++◌ as ◌+++◌, Option, none, some, Dict, insert, if◌then◌else◌,
  Outcome, returns, panics, ◌>>=◌, in_range, ◌⊎◌, inl, inr,
}
use sg_core.Data.{Event, Value, error, event, log, result, task, severity_string}
use sg_core.Alertmanager.Alert.{PrometheusAlert, set_summary}

pub record AppConfig : Type 0 where
  pub alert_manager_url : String
  pub generator_url : String

abbrev pub alert_source : String
alert_source = "SmartGateway"

pub record Packages (F Request : Type 0) : Type 0 where
  -- misc.AssimilateMap into an empty map.
  pub assimilate : Dict (Value F) → Dict String
  pub is_zero : F → Bool
  -- time.Now in RFC3339.
  pub now : String
  pub marshal : PrometheusAlert → Option String
  -- http.NewRequest of a POST to a URL with a body.
  pub new_request : String → String → String ⊎ Request

pub record AlertManager (Request : Type 0) : Type 0 where
  pub configuration : AppConfig
  pub dump : List PrometheusAlert
  pub sent : List Request

-- What New and Config start from.
unfoldable pub default_config : AppConfig
default_config = record {
  alert_manager_url = "http://localhost";
  generator_url = "http://sg.localhost.localdomain";
}

unfoldable pub new_alert_manager : {Request : Type 0} → AlertManager Request
unfolding default_config
new_alert_manager = record { configuration = default_config; dump = []; sent = [] }

-- Config, with what config.ParseConfig makes of the configuration.
unfoldable pub configure :
    {Request : Type 0}
    → (AppConfig → AppConfig × Option String)
    → AlertManager Request
    → AlertManager Request × Option String
unfolding default_config
configure parse_config am =
    let parsed = parse_config default_config in (record am { configuration = parsed.0 }, parsed.1)

module _ {F Request : Type 0} (p : Packages F Request) where
  -- The labels that an alert has of its own.
  unfoldable pub own_labels : Event F → String → Dict String → Dict String
  own_labels e severity labels = insert "publisher" e.publisher (
      insert "alertsource" alert_source
        (insert "severity" severity (insert "alertname" e.index labels)))

  unfoldable pub generate_alert : String → Event F → Outcome PrometheusAlert
  unfolding own_labels set_summary
  generate_alert generator_url e = in_range (severity_string e.severity) >>= (λ severity. returns (
      set_summary record {
        labels = own_labels e severity (p.assimilate e.labels);
        annotations = p.assimilate e.annotations;
        starts_at = if p.is_zero e.time then "" else p.now;
        ends_at = "";
        generator_url = generator_url;
      }))

  unfoldable pub enqueue :
      Outcome PrometheusAlert → AlertManager Request → Outcome (AlertManager Request)
  enqueue alert am = alert >>= (λ a. returns (record am { dump = am.dump +++ a ∷ [] }))

  unfoldable pub receive_event : Event F → AlertManager Request → Outcome (AlertManager Request)
  unfolding enqueue generate_alert
  receive_event e am = elim (e.type) [
    | error ↦ returns am
    | event ↦ enqueue (generate_alert am.configuration.generator_url e) am
    | log ↦ returns am
    | result ↦ returns am
    | task ↦ returns am
  ]

  -- The goroutine of an alert: a request that was not made is used all the same.
  unfoldable pub send : PrometheusAlert → AlertManager Request → Outcome (AlertManager Request)
  send alert am = elim (p.marshal alert) [
    | none ↦ returns am
    | some text ↦ elim (p.new_request am.configuration.alert_manager_url ("[" ++ (text ++ "]"))) [
      | inl err ↦ panics
      | inr req ↦ returns (record am { sent = am.sent +++ req ∷ [] })
    ]
  ]

  -- A turn of Run with an alert in the channel.
  unfoldable pub work : AlertManager Request → Outcome (AlertManager Request)
  unfolding send
  work am = elim (am.dump) [
    | [] ↦ returns am
    | alert ∷ rest ↦ send alert (record am { dump = rest })
  ]
