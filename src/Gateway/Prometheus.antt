-- ===== src/Gateway/Prometheus.antt =====
-- The application of plugins/application/prometheus, once its Run has begun, as a receiver of metrics.
use sg_core.Prelude.{
  is_some, ℕ, ◌==◌, ==_iff, ◌≡◌, refl, ap, ◌∙◌, arith, Bool, true, ◌&&◌, ◌||◌, String, str_eq,
  eq_refl, length, Option, none, some, lookup, lookup-insert, Bool-cases, inl, inr, pos,
}
use sg_core.Data.{Metric}
use sg_core.Prometheus.Expiry.{ExpiryProc, new_expiry_proc}
use sg_core.Prometheus.Collector.{
  MetricProcess, PromCollector, new_prom_collector, cache_key, update_under, update_metrics,
  new_process, refresh,
}
use sg_core.Prometheus.Application.{
  Prometheus, load, collector_for, register_collector, enlist_collector, must_register,
  receive_metric,
}
use sg_core.Prometheus.Collectors.{load-store}
use sg_core.Gateway.Receiver.{MessageReceiver}

module _ {F : Type 0} where
  abbrev pub key_of : Metric F → String
  key_of m = cache_key "" m.name m.label_vals

  -- What a collector has under a key.
  abbrev pub found_in : String → Option (PromCollector F) → Option (MetricProcess F)
  found_in key none = none
  found_in key (some pc) = lookup key pc.m_proc

  -- The metric has an entry in the collector of its number of labels.
  abbrev pub is_served : Metric F → Prometheus F → Bool
  is_served m p = is_some (found_in (key_of m) (load (length m.label_keys) p.collectors))

  abbrev pub is_alike : Metric F → Metric F → Bool
  is_alike m k = (length m.label_keys == length k.label_keys) && str_eq (key_of m) (key_of k)

  abbrev builder_of : Option (PromCollector F) → String
  builder_of none = ""
  builder_of (some pc) = pc.cache_index_builder

  -- The key builder of every collector is empty.
  abbrev pub BuildersEmpty : Prometheus F → Type 0
  BuildersEmpty p = (d : ℕ) → builder_of (load d p.collectors) ≡ ""

  update_under-found :
      (now : ℕ) (m : Metric F) (key j : String) (o : Option (MetricProcess F))
      (pc : PromCollector F) (ep : ExpiryProc String)
      → is_some (lookup j (update_under now m key o (pc, ep)).0.m_proc)
        ≡ (str_eq key j || is_some (lookup j pc.m_proc))
  unfolding update_under
  update_under-found now m key j none pc ep =
      ground (arith, lookup-insert key j (new_process now m) pc.m_proc)
  update_under-found now m key j (some k) pc ep =
      ground (arith, lookup-insert key j (refresh now m k) pc.m_proc)

  update_under-builder :
      (now : ℕ) (m : Metric F) (key : String) (o : Option (MetricProcess F)) (pc : PromCollector F)
      (ep : ExpiryProc String)
      → (update_under now m key o (pc, ep)).0.cache_index_builder ≡ ""
  unfolding update_under
  update_under-builder now m key none pc ep = refl
  update_under-builder now m key (some k) pc ep = refl

  register_collector-collectors :
      (k : ℕ) (b : Bool) (p : Prometheus F) → (register_collector k b p).collectors ≡ p.collectors
  unfolding register_collector enlist_collector must_register
  register_collector-collectors k b p = ground arith

  pub collector_for-found :
      (j : String) (k : ℕ) (p : Prometheus F)
      → (is_some (lookup j (collector_for k p).0.m_proc)
          ≡ is_some (found_in j (load k p.collectors)))
        × (builder_of (some (collector_for k p).0) ≡ builder_of (load k p.collectors))
  unfolding collector_for new_prom_collector lookup
  collector_for-found j k p = (ground arith, ground arith)

  update_metrics-found :
      (now : ℕ) (m : Metric F) (j : String) (pc : PromCollector F) (ep : ExpiryProc String)
      → pc.cache_index_builder ≡ ""
      → is_some (lookup j (update_metrics now m (pc, ep)).0.m_proc)
        ≡ (str_eq (key_of m) j || is_some (lookup j pc.m_proc))
  unfolding update_metrics
  update_metrics-found now m j pc ep empty =
      update_under-found now m (cache_key pc.cache_index_builder m.name m.label_vals) j _ pc ep
      ∙ ap (λ b. str_eq (cache_key b m.name m.label_vals) j || is_some (lookup j pc.m_proc)) empty

  update_metrics-builder :
      (now : ℕ) (m : Metric F) (pc : PromCollector F) (ep : ExpiryProc String)
      → (update_metrics now m (pc, ep)).0.cache_index_builder ≡ ""
  unfolding update_metrics
  update_metrics-builder now m pc ep =
      update_under-builder now m (cache_key pc.cache_index_builder m.name m.label_vals) _ pc ep

  pub receive_metric-served :
      (now : ℕ) (d e : Metric F) (p : Prometheus F)
      → BuildersEmpty p
      → is_served e (receive_metric now d p) ≡ (is_alike d e || is_served e p)
  unfolding receive_metric
  receive_metric-served now d e p empty =
      let k = length d.label_keys in
      let pc = (collector_for k p).0 in
      let ep : ExpiryProc String = new_expiry_proc (pos 0) in
      let updated = (update_metrics now d (pc, ep)).0 in
      elim (Bool-cases (k == length e.label_keys)) [
        | inl same ↦ rw (load-store k (length e.label_keys) updated p.collectors) (
            rw same (
              update_metrics-found now d (key_of e) pc ep ((collector_for-found "" k p).1 ∙ empty k)
              ∙ ap (λ b. str_eq (key_of d) (key_of e) || b)
                  ((collector_for-found (key_of e) k p).0
                    ∙ ap (λ n. is_some (found_in (key_of e) (load n p.collectors)))
                        ((==_iff k (length e.label_keys)).0 same))))
        | inr other ↦ rw (load-store k (length e.label_keys) updated p.collectors) (rw other refl)
      ]

  pub receive_metric-BuildersEmpty :
      (now : ℕ) (m : Metric F) (p : Prometheus F)
      → BuildersEmpty p
      → BuildersEmpty (receive_metric now m p)
  unfolding receive_metric
  receive_metric-BuildersEmpty now m p empty d =
      let k = length m.label_keys in
      let ep : ExpiryProc String = new_expiry_proc (pos 0) in
      let updated = (update_metrics now m ((collector_for k p).0, ep)).0 in
      elim (Bool-cases (k == d)) [
        | inl same ↦
            rw (load-store k d updated p.collectors)
              (rw same (update_metrics-builder now m (collector_for k p).0 ep))
        | inr other ↦ rw (load-store k d updated p.collectors) (rw other (empty d))
      ]

  pub is_alike_refl : (e : Metric F) → is_alike e e ≡ true
  is_alike_refl e =
      rw (eq_refl (key_of e)) (ground (arith, ==_iff (length e.label_keys) (length e.label_keys)))

  pub is_served-alike :
      (now : ℕ) (d e : Metric F) (p : Prometheus F)
      → BuildersEmpty p
      → is_alike d e ≡ true
      → is_served e (receive_metric now d p) ≡ true
  is_served-alike now d e p empty alike = receive_metric-served now d e p empty ∙ rw alike refl

  pub is_served-kept :
      (now : ℕ) (d e : Metric F) (p : Prometheus F)
      → BuildersEmpty p
      → is_served e p ≡ true
      → is_served e (receive_metric now d p) ≡ true
  is_served-kept now d e p empty held = receive_metric-served now d e p empty ∙ ground (arith, held)

  -- Prometheus keeps a metric by its number of labels and its key.
  abbrev pub prometheus_receiver : MessageReceiver (Metric F) (Prometheus F)
  prometheus_receiver = record {
    receive = receive_metric;
    is_alike = is_alike;
    holds = is_served;
    IsSound = BuildersEmpty;
    alike_refl = is_alike_refl;
    receive_sound = receive_metric-BuildersEmpty;
    receive_holds = is_served-alike;
    receive_keeps = is_served-kept;
  }
