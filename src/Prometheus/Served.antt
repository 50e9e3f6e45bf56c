-- ===== src/Prometheus/Served.antt =====
-- The plugin over any history of metrics received and checks made, each whole. ReceiveMetric runs under the
-- plugin's lock and a check under that of its process, so that the code lets them overlap: a check between
-- the registration of a collector and its first metric is not among these histories.
use sg_core.Prelude.{
  is_some, ℕ, ==_iff, ◌≡◌, refl, sym, ap, ◌∙◌, Bool, true, false, not, List, [], ◌∷◌, ◌++◌,
  map-append, length, Option, none, some, Option-cases, inl, inr, ℤ, arith,
}
use sg_core.Data.{Metric}
use sg_core.Prometheus.Expiry.{
  ExpiryProc, check, check_loop, check_entry, register, new_expiry_proc,
}
use sg_core.Prometheus.Collector.{PromCollector}
use sg_core.Prometheus.Application.{
  Prometheus, MetricEntry, new_prometheus, load, load_proc, store, registers, collector_for,
  register_collector, enlist_collector, must_register, receive_metric, entry_expired, entry_delete,
  check_interval, check_collectors,
}
use sg_core.Prometheus.Collectors.{
  load-store, among-append, OnceEach-append, requested, after_call, requested-append, Enlisted,
}
use sg_core.Prometheus.Emptied.{check_collectors-exact}

module _ {F : Type 0} where
  -- What neither adds nor deletes a collector keeps the collectors enlisted.
  Enlisted-same :
      (cs : List (ℕ × PromCollector F)) (procs : List (ℤ × ExpiryProc MetricEntry))
      (p : Prometheus F)
      → ((d : ℕ) → is_some (load d cs) ≡ is_some (load d p.collectors))
      → Enlisted p
      → Enlisted (record p { collectors = cs; metric_expiry_procs = procs })
  Enlisted-same cs procs p h e = record {
    dims = e.dims;
    listed = e.listed;
    once_each = e.once_each;
    matching = λ d. e.matching d ∙ sym (h d);
    requests = λ d. e.requests d ∙ sym (h d);
  }

  entry_delete-same :
      (e : MetricEntry) (cs : List (ℕ × PromCollector F)) (d : ℕ)
      → is_some (load d (entry_delete e cs).0) ≡ is_some (load d cs)
  unfolding entry_delete
  entry_delete-same e cs d = grind (arith, ==_iff e.dimension d, load-store)

  module _ (now : ℕ) (interval : ℤ) where
    check_entry-same :
        (e : Option MetricEntry) (cs : List (ℕ × PromCollector F)) (d : ℕ)
        → is_some (load d (check_entry (entry_expired now) entry_delete interval e cs).0)
          ≡ is_some (load d cs)
    unfolding check_entry
    check_entry-same none cs d = refl
    check_entry-same (some e) cs d = ground (arith, entry_delete-same e cs d)

    check_loop-same :
        (es : List (Option MetricEntry)) (cs : List (ℕ × PromCollector F)) (d : ℕ)
        → is_some (load d (check_loop (entry_expired now) entry_delete interval es cs).1)
          ≡ is_some (load d cs)
    unfolding check_loop
    check_loop-same [] cs d = refl
    check_loop-same (e ∷ es) cs d = ground (
      arith,
      check_entry-same e cs d,
      check_loop-same es (check_entry (entry_expired now) entry_delete interval e cs).0 d,
    )

  check_interval-Enlisted :
      (now : ℕ) (interval : ℤ) (p : Prometheus F)
      → Enlisted p
      → Enlisted (check_interval now interval p)
  unfolding check_interval check
  check_interval-Enlisted now interval p e =
      elim (Option-cases (load_proc interval p.metric_expiry_procs)) [
        | inl h ↦ rw (h, check_interval) e
        | inr (ep, h) ↦
            rw (h, check_interval)
              (Enlisted-same _ _ p (check_loop-same now ep.interval ep.entries p.collectors) e)
      ]

  -- A new collector is enlisted and registered; one that is known is neither.
  register_collector-Enlisted :
      (k : ℕ) (b : Bool) (pc : PromCollector F) (p : Prometheus F)
      (procs : List (ℤ × ExpiryProc MetricEntry))
      → b ≡ not (is_some (load k p.collectors))
      → Enlisted p
      → Enlisted (record (register_collector k b p) {
        collectors = store k pc p.collectors;
        metric_expiry_procs = procs;
      })
  unfolding register_collector enlist_collector must_register register
  register_collector-Enlisted k false pc p procs h e = record {
    dims = e.dims;
    listed = e.listed;
    once_each = e.once_each;
    matching = λ d. ground (arith, ==_iff k d, load-store k d pc p.collectors, e.matching d, h);
    requests = λ d. ground (arith, ==_iff k d, load-store k d pc p.collectors, e.requests d, h);
  }
  register_collector-Enlisted k true pc p procs h e = record {
    dims = e.dims ++ k ∷ [];
    listed = ap (λ l. l ++ some k ∷ []) e.listed ∙ sym (map-append some e.dims (k ∷ []));
    once_each = OnceEach-append k e.dims (ground (arith, e.matching k, h)) e.once_each;
    matching =
        λ d. ground (arith, load-store k d pc p.collectors, among-append d k e.dims, e.matching d);
    requests = λ d.
        unfold after_call in
        ground (
          arith,
          load-store k d pc p.collectors,
          requested-append d false p.registry_calls (registers k),
          e.requests d,
        );
  }

  collector_for-new :
      (k : ℕ) (p : Prometheus F) → (collector_for k p).1 ≡ not (is_some (load k p.collectors))
  unfolding collector_for
  collector_for-new k p = ground arith

  receive_metric-Enlisted :
      (now : ℕ) (m : Metric F) (p : Prometheus F) → Enlisted p → Enlisted (receive_metric now m p)
  unfolding receive_metric
  receive_metric-Enlisted now m p e =
      register_collector-Enlisted (length m.label_keys) _ _ p _
        (collector_for-new (length m.label_keys) p) e

pub data Call (F : Type 0) : Type 0 where
  receives : ℕ → Metric F → Call F
  checks_metrics : ℕ → ℤ → Call F
  checks_collectors : Call F

module _ {F : Type 0} where
  unfoldable pub step : Call F → Prometheus F → Prometheus F
  step (receives now m) p = receive_metric now m p
  step (checks_metrics now interval) p = check_interval now interval p
  step checks_collectors p = check_collectors p

  unfoldable pub run : List (Call F) → Prometheus F → Prometheus F
  unfolding step
  run [] p = p
  run (c ∷ cs) p = run cs (step c p)

  step-Enlisted : (c : Call F) (p : Prometheus F) → Enlisted p → Enlisted (step c p)
  unfolding step
  step-Enlisted (receives now m) p e = receive_metric-Enlisted now m p e
  step-Enlisted (checks_metrics now interval) p e = check_interval-Enlisted now interval p e
  step-Enlisted checks_collectors p e = (check_collectors-exact p e).1

  -- If the entries that expire collectors are the collectors, each once, and these are the numbers of labels
  -- for which the last call of the registry is MustRegister, as it is at the start, then so it is after any
  -- history of metrics received and of checks that do not overlap.
  pub run-Enlisted : (cs : List (Call F)) (p : Prometheus F) → Enlisted p → Enlisted (run cs p)
  unfolding run
  run-Enlisted [] p e = e
  run-Enlisted (c ∷ cs) p e = run-Enlisted cs (step c p) (step-Enlisted c p e)

  pub new_prometheus-Enlisted : Enlisted {F = F} new_prometheus
  unfolding new_prometheus new_expiry_proc load requested
  new_prometheus-Enlisted = record {
    dims = [];
    listed = refl;
    once_each = tt;
    matching = λ d. refl;
    requests = λ d. refl;
  }
