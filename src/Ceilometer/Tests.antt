-- ===== src/Ceilometer/Tests.antt =====
-- Runs of the ceilometer handler: a float64 is a natural number here.
use sg_core.Prelude.{
  ℕ, ◌≡◌, refl, true, false, str_eq, [], ◌∷◌, none, map, returns, inr, if◌then◌else◌,
}
use sg_core.Ceilometer.Message.{CeilometerMetric, Message, Decoders}
use sg_core.Ceilometer.Labels.{gen_labels}
use sg_core.Ceilometer.Written.{labels, gen_labels-labels}
use sg_core.Ceilometer.Metrics.{Handler, Times, new_handler, validate_message, handle_message}
use sg_core.Ceilometer.Payload.{Stopped, handle_message-Stopped}

abbrev cpu : CeilometerMetric ℕ
cpu = record {
  source = "openstack";
  counter_name = "disk.device.read";
  counter_type = "cumulative";
  counter_unit = "B";
  counter_volume = 7;
  user_id = "u1";
  user_name = "";
  project_id = "p1";
  project_name = "";
  resource_id = "r1";
  timestamp = "2020-09-14T16:12:49Z";
  resource_metadata = record {
    host = "compute-0";
    name = "instance-1";
    display_name = "web";
    instance_host = "";
    user_metadata = ("tier", "front") ∷ [];
  };
}

abbrev two_metrics : Message ℕ
two_metrics = record {
  publisher = "telemetry";
  payload = cpu ∷ record cpu { counter_name = "" } ∷ cpu ∷ [];
}

abbrev decoders : Decoders ℕ
decoders = record {
  unmarshal_schema = λ blob schema.
      if str_eq blob "" then (schema, none) else (record { oslo_message = blob }, none);
  unmarshal_message = λ s. inr two_metrics;
  unpack_metric = λ s. inr cpu;
  unpack_message = λ s. inr two_metrics;
  unquote_nested = λ s. s;
  find_payload = λ s. [];
  replace_payload = λ s t. t;
}

abbrev clock : Times ℕ
clock = record { float64 = λ n. n; below_zero = λ f. false; unix_time = λ s. 5 }

abbrev started : Handler ℕ
unfolding new_handler
started = new_handler record { metrics = []; events = [] }

gen_labels-labels_example :
    gen_labels cpu "telemetry" ("disk" ∷ "device" ∷ "read" ∷ [])
    ≡ returns (
      map (λ l. l.0) (labels cpu "telemetry" "disk" ("device" ∷ "read" ∷ [])),
      map (λ l. l.1) (labels cpu "telemetry" "disk" ("device" ∷ "read" ∷ [])),
    )
gen_labels-labels_example = gen_labels-labels cpu "telemetry" "disk" ("device" ∷ "read" ∷ [])

handle_message-Stopped_example :
    Stopped clock decoders "telemetry" two_metrics.payload started
      (handle_message clock decoders true two_metrics started)
unfolding validate_message
handle_message-Stopped_example = handle_message-Stopped clock decoders true two_metrics started refl
