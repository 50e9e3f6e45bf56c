-- ===== src/Dummy/Tests.antt =====
-- A message of dummy-metrics in a handler of collectd's metrics. A float64 is a number here, and a message is
-- encoded as the text "metrics" if it is the first one.
use sg_core.Prelude.{refl, ◌*◌, ℕ, true, String, List, [], ◌∷◌, inl, inr, ◌⊎◌, pos}
use sg_core.Collectd.Metrics.{Handler, handle}
use sg_core.Dummy.Load.{Generator, DummyMetric, gen_metrics, gen_collectd_message}
use sg_core.Dummy.Generated.{Passed, sources, gen_collectd_message-Passed}

abbrev encoded : List (DummyMetric ℕ) → String ⊎ String
encoded [] = inl "nothing to encode"
encoded (m ∷ ms) = inr "metrics"

abbrev generator : Generator ℕ
generator = record {
  random = λ i. i;
  times = λ x n. x * n;
  now = λ i. 7;
  five = 5;
  marshal = encoded;
}

abbrev to_number : ℕ → ℕ
to_number n = n

abbrev fresh : Handler ℕ
fresh = record {
  total_metrics_decoded = 0;
  total_messages_received = 0;
  total_decode_errors = 0;
  out = record { metrics = []; events = [] };
}

abbrev decoded : String → String ⊎ List (DummyMetric ℕ)
decoded text = inr (gen_metrics generator 0)

gen_collectd_message-Passed_example :
    Passed generator to_number pos
      (sources generator to_number pos 0)
      fresh
      (handle to_number to_number pos (decoded (gen_collectd_message generator 0)) true fresh)
unfolding gen_metrics
gen_collectd_message-Passed_example =
    gen_collectd_message-Passed generator to_number pos decoded 0 "metrics" true fresh refl refl
