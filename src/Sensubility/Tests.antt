-- ===== src/Sensubility/Tests.antt =====
-- Runs of the sensubility handler: a float64 is a natural number here.
use sg_core.Prelude.{ℕ, ◌≡◌, refl, true, String, List, [], ◌∷◌, Option, some, ℤ, pos, ◌⊎◌, inr}
use sg_core.Events.Time.{epoch_from_format}
use sg_core.Sensubility.Message.{Message, HealthCheck, is_msg_valid, is_output_valid}
use sg_core.Sensubility.Metrics.{Handler, no_error, handle}
use sg_core.Sensubility.Handled.{Handled, received, handle-Handled}

abbrev good : HealthCheck ℕ
good = record { service = "glance"; container = "c1"; status = "healthy"; healthy = 1 }

abbrev bad : HealthCheck ℕ
bad = record { service = ""; container = "c2"; status = "unhealthy"; healthy = 0 }

abbrev report_msg : Message ℕ
report_msg = record {
  labels = record { client = "controller-0"; check = "check-container-health"; severity = "OKAY" };
  annotations = record {
    command = "";
    issued = pos 0;
    executed = pos 0;
    duration = 0;
    output = "[]";
    status = pos 0;
    starts_at = "";
  };
  starts_at = "2021-06-29T18:49:13Z";
}

abbrev start : Handler ℕ
start = record {
  total_metrics_decoded = pos 0;
  total_decode_errors = pos 0;
  total_messages_received = pos 0;
  metric_interval = pos 10;
  out = record { metrics = []; events = [] };
}

abbrev whole : ℤ → ℕ
whole (pos n) = n
whole z = 0

abbrev decode_good : String → String ⊎ List (HealthCheck ℕ)
decode_good s = inr (good ∷ good ∷ [])

abbrev decode_bad : String → String ⊎ List (HealthCheck ℕ)
decode_bad s = inr (good ∷ bad ∷ [])

abbrev clock : String → String → Option ℤ
clock layout ts = some (pos 1624992553)

handle-Handled_example :
    let r = handle (λ n. n) whole decode_good clock (inr report_msg) true start in
    Handled
      (λ n. n)
      whole
      (epoch_from_format clock report_msg.starts_at)
      report_msg
      (good ∷ good ∷ [])
      (received (λ n. n) whole decode_good clock start)
      r.0
    × (r.1 ≡ no_error)
unfolding epoch_from_format is_msg_valid is_output_valid
handle-Handled_example =
    handle-Handled (λ n. n) whole decode_good clock true report_msg (good ∷ good ∷ []) start refl
      refl refl refl
