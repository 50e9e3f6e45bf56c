-- ===== src/Prometheus/History.antt =====
-- A collector over any history of updates, scrapes and checks, each of them whole: UpdateMetrics runs
-- under the plugin's lock, a check under its own.
use sg_core.Prelude.{
  ℕ, ◌≡◌, refl, ◌∙◌, Bool, String, none, some, lookup, arith, List, [], ◌∷◌, Option, ℤ,
}
use sg_core.Data.{Metric, MetricType}
use sg_core.Prometheus.Expiry.{ExpiryProc, new_expiry_proc, check_entry, check_loop}
use sg_core.Prometheus.Collector.{
  Desc, PromCollector, new_prom_collector, update_metrics, check_metrics, collect, metric_expired,
  metric_delete,
}
use sg_core.Prometheus.Tracking.{Tracked}
use sg_core.Prometheus.Staleness.{update_metrics-Updated, check_metrics-exact, collect-Tracked}

module _ {F : Type 0} (now : ℕ) (interval : ℤ) where
  check_entry-builder :
      (e : Option String) (pc : PromCollector F)
      → (check_entry (metric_expired now) metric_delete interval e pc).0.cache_index_builder
        ≡ pc.cache_index_builder
  unfolding check_entry metric_delete
  check_entry-builder none pc = refl
  check_entry-builder (some k) pc = ground arith

  check_loop-builder :
      (es : List (Option String)) (pc : PromCollector F)
      → (check_loop (metric_expired now) metric_delete interval es pc).1.cache_index_builder
        ≡ pc.cache_index_builder
  unfolding check_loop
  check_loop-builder [] pc = refl
  check_loop-builder (e ∷ es) pc = ground (
    arith,
    check_entry-builder e pc,
    check_loop-builder es (check_entry (metric_expired now) metric_delete interval e pc).0,
  )

check_metrics-builder :
    {F : Type 0} (now : ℕ) (ep : ExpiryProc String) (pc : PromCollector F)
    → (check_metrics now (ep, pc)).1.cache_index_builder ≡ pc.cache_index_builder
unfolding check_metrics
check_metrics-builder now ep pc = check_loop-builder now ep.interval ep.entries pc

pub data Call (F : Type 0) : Type 0 where
  updates : ℕ → Metric F → Call F
  checks : ℕ → Call F
  scrapes : Call F

module _ {F Sample : Type 0}
    (new_const_metric : Desc → MetricType → F → List String → Option Sample)
    (new_metric_with_timestamp : F → Sample → Sample) (is_zero : F → Bool) where
  unfoldable pub step :
      Call F → PromCollector F × ExpiryProc String → PromCollector F × ExpiryProc String
  step (updates now m) (pc, ep) = update_metrics now m (pc, ep)
  step (checks now) (pc, ep) = let (ep', pc') = check_metrics now (ep, pc) in (pc', ep')
  step scrapes (pc, ep) = ((collect new_const_metric new_metric_with_timestamp is_zero pc).0, ep)

  unfoldable pub run :
      List (Call F) → PromCollector F × ExpiryProc String → PromCollector F × ExpiryProc String
  unfolding step
  run [] s = s
  run (c ∷ cs) s = run cs (step c s)

  Sound : PromCollector F × ExpiryProc String → Type 0
  Sound s = Tracked s.0 s.1 × (s.0.cache_index_builder ≡ "")

  step-Sound : (c : Call F) (s : PromCollector F × ExpiryProc String) → Sound s → Sound (step c s)
  unfolding step Sound
  step-Sound (updates now m) (pc, ep) (t, empty) =
      let u = update_metrics-Updated now m pc ep empty t in (u.tracked, u.emptied)
  step-Sound (checks now) (pc, ep) (t, empty) =
      ((check_metrics-exact now ep pc t).1, check_metrics-builder now ep pc ∙ empty)
  step-Sound scrapes (pc, ep) (t, empty) = (
    collect-Tracked new_const_metric new_metric_with_timestamp is_zero pc ep t,
    unfold collect in empty,
  )

  run-Sound :
      (cs : List (Call F)) (s : PromCollector F × ExpiryProc String) → Sound s → Sound (run cs s)
  unfolding run
  run-Sound [] s h = h
  run-Sound (c ∷ cs) s h = run-Sound cs (step c s) (step-Sound c s h)

  -- After any history of a new collector all of whose metrics go to one new expiry process, which it shares
  -- with no other collector (its metrics have one interval that no metric of another collector has), the
  -- entries are the keys of the metrics, each once, and the key builder is empty: no metric is left without
  -- an entry that could expire it, and no entry without its metric.
  pub run-Tracked :
      (cs : List (Call F)) (dimensions : ℕ) (with_timestamp : Bool) (interval : ℤ)
      → Tracked
          (run cs (new_prom_collector dimensions with_timestamp, new_expiry_proc interval)).0
          (run cs (new_prom_collector dimensions with_timestamp, new_expiry_proc interval)).1
        × ((run cs (
          new_prom_collector dimensions with_timestamp,
          new_expiry_proc interval,
        )).0.cache_index_builder
            ≡ "")
  unfolding Sound lookup
  run-Tracked cs dimensions with_timestamp interval = run-Sound cs _ (
      unfold new_prom_collector new_expiry_proc in
      (record { keys = []; listed = refl; distinct = tt; matching = λ k. refl }, refl))
