-- ===== src/Alertmanager/Tests.antt =====
-- Alerts of concrete events. A float64 is a number here, and a request the text that is posted.
use sg_core.Prelude.{
  ℕ, ◌≡◌, refl, ltb, String, [], ◌∷◌, Dict, lookup, insert, join, sort, insert_sorted, le_text,
  returns, ◌>>=◌, inr,
}
use sg_core.Data.{Event, event, warning, Value, str, severity_string}
use sg_core.Alertmanager.Alert.{PrometheusAlert, needs_summary}
use sg_core.Alertmanager.Generate.{
  Packages, generate_alert, new_alert_manager, receive_event, work, own_labels,
}
use mathlib.Core.Quot
use sg_core.Alertmanager.Name.{
  Labels, Named, name_of, set_name, set_name-Named, generated_name, name_values,
}
use sg_core.Alertmanager.Summary.{Generated, generate_alert-Generated}

abbrev texts : Dict (Value ℕ) → Dict String
texts [] = []
texts ((k, str s) ∷ m) = (k, s) ∷ texts m
texts ((k, v) ∷ m) = texts m

abbrev packages : Packages ℕ String
packages = record {
  assimilate = texts;
  is_zero = λ t. ltb t 1;
  now = "2020-03-06T14:01:07Z";
  marshal = λ alert. lookup "summary" alert.annotations;
  new_request = λ url body. inr body;
}

abbrev down : Event ℕ
down = record {
  index = "collectd_interface_if";
  time = 0;
  type = event;
  publisher = "host1";
  severity = warning;
  labels = ("interface", str "lo") ∷ ("severity", str "FAILURE") ∷ [];
  annotations = ("source_type", str "collectd") ∷ ("summary", str "") ∷ [];
  message = "";
}

generate_alert-Generated_example : Generated packages "http://gateway" down
generate_alert-Generated_example = generate_alert-Generated packages "http://gateway" down

-- The event is received, and its alert is sent with a summary from its keys.
alert_sent :
    (receive_event packages down new_alert_manager
      >>= (λ am. work packages am >>= (λ am'. returns am'.sent)))
    ≡ returns ("[collectd lo warning]" ∷ [])
unfolding receive_event work generate_alert new_alert_manager lookup insert join severity_string
    own_labels needs_summary
alert_sent = refl

abbrev unnamed : PrometheusAlert
unnamed = record {
  labels = ("severity", "warning") ∷ ("service", "collectd") ∷ ("check", "lo") ∷ [];
  annotations = [];
  starts_at = "";
  ends_at = "";
  generator_url = "";
}

abbrev unnamed_labels : Labels
unnamed_labels = (unnamed.labels, (refl, (refl, (refl, tt))))

set_name-Named_example : Named unnamed (name_of (Quot.mk unnamed_labels)) (set_name unnamed)
set_name-Named_example = set_name-Named unnamed unnamed_labels.1

-- The values are in the order of their labels.
name_of_unnamed : name_of (Quot.mk unnamed_labels) ≡ "lo_collectd"
unfolding name_of generated_name name_values sort insert_sorted le_text lookup join
name_of_unnamed = refl
