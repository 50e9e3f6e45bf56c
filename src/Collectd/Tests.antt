-- ===== src/Collectd/Tests.antt =====
-- Runs of the collectd handler, and its theorems at concrete inputs. A float64 and a cdtime.Time are
-- numbers here.
use sg_core.Prelude.{ℕ, ◌≡◌, refl, true, String, List, [], ◌∷◌, some, arith, inr, pos, panics}
use sg_core.Collectd.Metrics.{
  CollectdMetric, Handler, validate_metric, gen_metric_name, write_metrics, handle,
}
use sg_core.Collectd.Valid.{write_metrics-panics}
use sg_core.Collectd.Messages.{Wrote, handle-Wrote}

abbrev to_number : ℕ → ℕ
to_number n = n

abbrev fresh : Handler ℕ
fresh = record {
  total_metrics_decoded = 0;
  total_messages_received = 0;
  total_decode_errors = 0;
  out = record { metrics = []; events = [] };
}

-- An interface's traffic.
abbrev traffic : List String → CollectdMetric ℕ ℕ
traffic names = record {
  values = some (10 ∷ 20 ∷ []);
  dstypes = some ("derive" ∷ "derive" ∷ []);
  dsnames = some names;
  time = 7;
  interval = 10;
  host = "node";
  plugin = "interface";
  plugin_instance = "eth0";
  type = "if_octets";
  type_instance = "";
}

abbrev good : CollectdMetric ℕ ℕ
good = traffic ("rx" ∷ "tx" ∷ [])

-- One name too many.
abbrev long : CollectdMetric ℕ ℕ
long = traffic ("rx" ∷ "tx" ∷ "drop" ∷ [])

name_of_good : gen_metric_name good "rx" "derive" ≡ "collectd_interface_if_octets_rx_total"
unfolding gen_metric_name
name_of_good = refl

good_valid : validate_metric good ≡ true
unfolding validate_metric
good_valid = refl

long_valid : validate_metric long ≡ true
unfolding validate_metric
long_valid = refl

write_metrics-panics_example : write_metrics to_number to_number pos long fresh ≡ panics
write_metrics-panics_example =
    write_metrics-panics to_number to_number pos long fresh long_valid (omega arith)

handle-Wrote_example :
    Wrote to_number to_number pos
      (good ∷ [])
      (record fresh { total_messages_received = 1 })
      (handle to_number to_number pos (inr (good ∷ [])) true fresh)
handle-Wrote_example = handle-Wrote to_number to_number pos true (good ∷ []) fresh (omega arith)
