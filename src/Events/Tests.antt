-- ===== src/Events/Tests.antt =====
-- Messages of collectd and ceilometer: a float64 is a natural number here.

use sg_core.Prelude.{
  ℕ, ◌≡◌, refl, arith, Bool, true, false, ◌==◌, String, List, [], ◌∷◌, ◌++◌, map, none, some,
  lookup, inr, returns, panics, ◌⊎◌, suc, ◌&&◌, if◌then◌else◌, contains_text,
}
use Prim.Native.Char.{code}
use text.Mathlib.Text.{starts_with}
use sg_core.Data.{str}
use sg_core.Handler.{Published}
use sg_core.Events.Source.{Patterns}
use sg_core.Events.Ceilometer
use sg_core.Events.Ceilometer.{OsloPayload, OsloMessage, event_name, invalid_trait, format_trait}
use sg_core.Events.Traits.{
  Trait, textual, numeric, as_value, with_traits, typed_event, with_events, publish_events-All,
  publish_events-panics,
}
use sg_core.Events.Collectd
use sg_core.Events.Collectd.{
  Rexes, EventMessage, clean_loop, sanitize, collectd_event_handler, parse_sanitized,
  parse_messages, severity_of,
}
use sg_core.Events.Sanitize.{Shrinks, clean_loop_ends, collectd_event_handler-stuck}
use sg_core.Events.Parsed.{events_of, collectd_event_handler-events}
use sg_core.Events.Dispatch.{EventsHandler, Packages}

abbrev patterns : Bool → Patterns
patterns known = record {
  oslo_message = λ s. false;
  payload = λ s. false;
  event_type = λ s. false;
  labels_field = λ s. known;
  annotation_field = λ s. known;
}

abbrev ceilometer_packages : Ceilometer.Packages ℕ
ceilometer_packages = record {
  unmarshal_raw = λ s. inr (record { oslo_version = "2.0"; oslo_message = s });
  unmarshal_message = λ s.
      inr (record {
        event_type = "";
        publisher_id = "";
        timestamp = "";
        priority = "";
        payload = [];
      });
  unquote_nested = λ s. s;
  print = λ v. "?";
  is_two = λ t. t == 2;
  time_parse = λ layout ts. none;
  float64_of_int = λ z. 0;
  float64 = λ n. n;
}

abbrev pub rexes : Bool → Rexes
rexes nested = record {
  find_ves = λ s. some s;
  replace_ves = λ s t. t;
  unquote_nested = λ s. s;
  finds_invalid_ves = λ s. nested;
  finds_remained_nested = λ s. nested;
  finds_array = λ s. true;
}

abbrev pub alert : EventMessage ℕ
alert = record {
  labels = ("alertname", str "collectd_interface_if_octets") ∷ ("severity", str "FAILURE") ∷ [];
  annotations = [];
  starts_at = "";
}

abbrev pub collectd_packages : Bool → Collectd.Packages ℕ
collectd_packages nested = record {
  rexes = rexes nested;
  unmarshal = λ s. inr (alert ∷ []);
  merge_maps = λ a b. a ++ b;
  time_parse = λ layout ts. none;
  float64_of_int = λ z. 0;
}

abbrev packages : Bool → Packages ℕ
packages known = record {
  of_ceilometer = ceilometer_packages;
  of_collectd = collectd_packages false;
  patterns = patterns known;
  collectd_first = true;
  float64 = λ n. n;
}

abbrev pub nothing : Published ℕ
nothing = record { metrics = []; events = [] }

abbrev started : EventsHandler ℕ
started = record { events_received = []; strict_source = some ""; out = nothing }

abbrev created : OsloPayload ℕ
created = record {
  message_id = "m1";
  event_type = "compute.instance.create";
  generated = "";
  traits = [];
}

abbrev message : OsloMessage ℕ
message = record {
  event_type = "";
  publisher_id = "telemetry";
  timestamp = "";
  priority = "INFO";
  payload = [];
}

abbrev typed : List (Trait ℕ)
typed = textual "name" 1 "cirros" ∷ numeric "size" 2 7 ∷ []

publish_events-All_example :
    Ceilometer.publish_events ceilometer_packages message
      (with_traits (created, typed) ∷ [])
      nothing
    ≡ returns (
      with_events ceilometer_packages
          (typed_event ceilometer_packages message (created, typed) ∷ [])
          nothing,
      none,
    )
publish_events-All_example =
    publish_events-All ceilometer_packages message ((created, typed) ∷ []) nothing
      ((refl, (refl, tt)), tt)

publish_events-panics_example :
    Ceilometer.publish_events ceilometer_packages message
      (record created { traits = map as_value typed ++ as_value (numeric "load" 3 1) ∷ [] } ∷ [])
      nothing
    ≡ panics
publish_events-panics_example =
    publish_events-panics ceilometer_packages message [] created typed "load" 3 1 [] [] nothing tt
      (refl, (refl, tt)) refl

-- A backslash before a quote is removed.
unquote : String → String
unquote String.[] = ""
unquote (String.◌∷◌ c s) =
    let rest = unquote s in
    if (code c == b'\\') && starts_with s "\"" then rest else String.◌∷◌ c rest

abbrev size_of : String → ℕ
size_of String.[] = 0
size_of (String.◌∷◌ c s) = suc (size_of s)

-- Nested quotes have two backslashes, and an invalid text has an empty string inside a string.
abbrev unquoting : Rexes
unquoting = record {
  find_ves = λ s. some s;
  replace_ves = λ s t. t;
  unquote_nested = unquote;
  finds_invalid_ves = contains_text "x\"\"";
  finds_remained_nested = contains_text "\\\\\"";
  finds_array = λ s. true;
}

-- Three backslashes before a quote: the first round leaves two, the second one.
clean_loop_ends_example :
    (t : String) × (clean_loop unquoting 7 "a\\\\\\\"b" ≡ some t)
    × ((unquoting.finds_remained_nested t ≡ false)
        ⊎ ((unquoting.finds_invalid_ves (unquoting.unquote_nested t) ≡ true)
            × (unquoting.finds_remained_nested (unquoting.unquote_nested t) ≡ false)))
unfolding contains_text Shrinks unquote
clean_loop_ends_example =
    clean_loop_ends unquoting size_of 7 "a\\\\\\\"b" (λ nested. (refl, omega arith, λ again. cc))
      (omega arith)

collectd_event_handler-stuck_example :
    collectd_event_handler (collectd_packages true) 9 "ves" nothing ≡ none
collectd_event_handler-stuck_example =
    collectd_event_handler-stuck (collectd_packages true) 9 "ves" "ves" nothing refl refl refl

collectd_event_handler-events_example :
    collectd_event_handler (collectd_packages false) 1 "ves" nothing
    ≡ some (
        returns (
          record { metrics = []; events = events_of (collectd_packages false) (alert ∷ []) },
          none,
        ))
unfolding sanitize lookup
collectd_event_handler-events_example =
    collectd_event_handler-events (collectd_packages false) 1 "ves" "\"ves\":{ves}" (alert ∷ [])
      nothing refl refl (tt, tt)
