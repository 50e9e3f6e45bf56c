-- ===== src/Dummy/Generated.antt =====
-- What the collectd metrics handler makes of the messages of dummy-metrics.
use sg_core.Prelude.{
  ℕ, ◌+◌, ◌≡◌, refl, ap, ◌∙◌, arith, Bool, String, All, ◌⊎◌, inc64, Outcome, returns, List, [], ◌∷◌,
  ◌++◌, ℤ, inr,
}
use sg_core.Data.{Metric}
use sg_core.Collectd.Metrics.{Handler, source_metric, handle, validate_metric}
use sg_core.Collectd.Messages.{Matched, all_metrics, invalid, handle-Wrote}
use sg_core.Collectd.Valid.{bump}
use sg_core.Dummy.Load.{Generator, DummyMetric, gen_metric, gen_metrics, gen_collectd_message}

module _ {F : Type 0} (g : Generator F) (float64 : ℕ → F) (to_duration : F → ℤ) where
  abbrev to_float : F → F
  to_float t = t

  -- The metric of a data source.
  abbrev sent : DummyMetric F → String → String → F → Metric F
  sent = source_metric float64 to_float to_duration

  -- The metrics of the four data sources of a message.
  abbrev pub sources : ℕ → List (Metric F)
  sources i =
      sent (gen_metric g i "rx" "tx") "rx" "derive" (g.times (g.random i) 1000)
      ∷ sent (gen_metric g i "rx" "tx") "tx" "counter" (g.times (g.random (i + 1)) 10000)
      ∷ sent (gen_metric g (i + 2) "in" "out") "in" "derive" (g.times (g.random (i + 2)) 1000)
      ∷ sent (gen_metric g (i + 2) "in" "out") "out" "counter"
          (g.times (g.random (i + 2 + 1)) 10000)
      ∷ []

  -- A handler that has published what follows, without an error.
  pub record Passed (ms : List (Metric F)) (c : Handler F) (r : Outcome (Handler F)) : Type 0 where
    pub next : Handler F
    pub result : r ≡ returns next
    pub metrics : next.out.metrics ≡ c.out.metrics ++ ms
    pub errors : next.total_decode_errors ≡ c.total_decode_errors
    pub received : next.total_messages_received ≡ inc64 c.total_messages_received

  gen_metrics-Matched : (i : ℕ) → All (Matched float64 to_float to_duration) (gen_metrics g i)
  unfolding gen_metrics gen_metric
  gen_metrics-Matched i = omega arith

  all_sources : (j : ℕ) → all_metrics float64 to_float to_duration (gen_metrics g j) ≡ sources j
  unfolding gen_metrics validate_metric gen_metric
  all_sources j = refl

  none_invalid : (j : ℕ) → invalid float64 to_float to_duration (gen_metrics g j) ≡ 0
  unfolding gen_metrics validate_metric gen_metric
  none_invalid j = refl

  -- Each message that dummy-metrics generates and JSON encodes is handled by the handler of collectd's
  -- metrics without a panic and without an error, if it is decoded to what was encoded: the four data
  -- sources are published in order, with their random values.
  pub gen_collectd_message-Passed :
      (parse_input : String → String ⊎ List (DummyMetric F)) (i : ℕ) (blob : String) (report : Bool)
      (c : Handler F)
      → g.marshal (gen_metrics g i) ≡ inr blob
      → parse_input blob ≡ inr (gen_metrics g i)
      → Passed
          (sources i)
          c
          (handle float64 to_float to_duration (parse_input (gen_collectd_message g i)) report c)
  unfolding gen_collectd_message
  gen_collectd_message-Passed parse_input i blob report c encodes decodes =
      rw (encodes, gen_collectd_message)
        (rw decodes (
          let w =
            handle-Wrote float64 to_float to_duration report (gen_metrics g i) c
              (gen_metrics-Matched i) in
          record {
            next = w.next;
            result = w.result;
            metrics = w.metrics ∙ ap (λ l. c.out.metrics ++ l) (all_sources i);
            errors = w.errors ∙ ap (λ n. bump n c.total_decode_errors) (none_invalid i);
            received = w.received;
          }))
