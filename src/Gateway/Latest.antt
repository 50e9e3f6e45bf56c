-- ===== src/Gateway/Latest.antt =====
-- Which of the metrics that share a place in Prometheus it shows: that of the last call.
use sg_core.Prelude.{
  ℕ, suc, ◌≤◌, ◌==◌, ==_iff, ◌≡◌, refl, sym, ap, ◌∙◌, arith, Bool, true, false, ◌&&◌, String,
  str_eq, List, [], ◌∷◌, length, Option, none, some, lookup, lookup-insert, Bool-cases,
  Option-cases, inl, inr, pos, if◌then◌else◌,
}
use sg_core.Data.{Metric, MetricType}
use sg_core.Bus.Deliveries.{Delivery}
use sg_core.Bus.Complete.{count}
use sg_core.Prometheus.Expiry.{ExpiryProc, new_expiry_proc}
use sg_core.Prometheus.Collector.{
  Desc, MetricProcess, PromCollector, new_prom_collector, cache_key, update_under, update_metrics,
  new_process, refresh,
}
use sg_core.Prometheus.Application.{Prometheus, load, collector_for, receive_metric}
use sg_core.Prometheus.Collectors.{load-store}
use sg_core.Gateway.Receiver.{calls, alike_to}
use sg_core.Gateway.Scraped.{Scraped}
use sg_core.Gateway.Prometheus.{
  key_of, found_in, is_alike, BuildersEmpty, prometheus_receiver, collector_for-found,
  receive_metric-BuildersEmpty,
}

module _ {F : Type 0} where
  -- A metric but for its interval, which an entry keeps of its first metric.
  abbrev pub without_interval : Metric F → Metric F
  without_interval m = record m { interval = pos 0 }

  abbrev pub metric_in : Option (MetricProcess F) → Option (Metric F)
  metric_in none = none
  metric_in (some k) = some (without_interval k.metric)

  -- What Prometheus has in the place of a metric, but for the interval.
  abbrev pub shown_in : Metric F → Prometheus F → Option (Metric F)
  shown_in e p = metric_in (found_in (key_of e) (load (length e.label_keys) p.collectors))

  update_under-shown :
      (now : ℕ) (m : Metric F) (key j : String) (o : Option (MetricProcess F))
      (pc : PromCollector F) (ep : ExpiryProc String)
      → metric_in (lookup j (update_under now m key o (pc, ep)).0.m_proc)
        ≡ (if str_eq key j then some (without_interval m) else metric_in (lookup j pc.m_proc))
  unfolding update_under new_process refresh
  update_under-shown now m key j none pc ep =
      ground (arith, lookup-insert key j (new_process now m) pc.m_proc)
  update_under-shown now m key j (some k) pc ep =
      ground (arith, lookup-insert key j (refresh now m k) pc.m_proc)

  update_metrics-shown :
      (now : ℕ) (m : Metric F) (j : String) (pc : PromCollector F) (ep : ExpiryProc String)
      → pc.cache_index_builder ≡ ""
      → metric_in (lookup j (update_metrics now m (pc, ep)).0.m_proc) ≡ (
          if str_eq (key_of m) j then some (without_interval m) else metric_in (lookup j pc.m_proc))
  unfolding update_metrics
  update_metrics-shown now m j pc ep empty =
      update_under-shown now m (cache_key pc.cache_index_builder m.name m.label_vals) j _ pc ep
      ∙ ap
          (λ b.
            if str_eq (cache_key b m.name m.label_vals) j
            then some (without_interval m)
            else metric_in (lookup j pc.m_proc))
          empty

  collector_for-shown :
      (j : String) (k : ℕ) (p : Prometheus F)
      → metric_in (lookup j (collector_for k p).0.m_proc)
        ≡ metric_in (found_in j (load k p.collectors))
  unfolding collector_for new_prom_collector lookup
  collector_for-shown j k p = ground arith

  receive_metric-shown :
      (now : ℕ) (d e : Metric F) (p : Prometheus F)
      → BuildersEmpty p
      → shown_in e (receive_metric now d p)
        ≡ (if is_alike d e then some (without_interval d) else shown_in e p)
  unfolding receive_metric
  receive_metric-shown now d e p empty =
      let k = length d.label_keys in
      let pc = (collector_for k p).0 in
      let ep : ExpiryProc String = new_expiry_proc (pos 0) in
      let updated = (update_metrics now d (pc, ep)).0 in
      elim (Bool-cases (k == length e.label_keys)) [
        | inl same ↦ rw (load-store k (length e.label_keys) updated p.collectors) (
            rw same (
              update_metrics-shown now d (key_of e) pc ep ((collector_for-found "" k p).1 ∙ empty k)
              ∙ ap (λ o. if str_eq (key_of d) (key_of e) then some (without_interval d) else o)
                  (collector_for-shown (key_of e) k p
                    ∙ ap (λ n. metric_in (found_in (key_of e) (load n p.collectors)))
                        ((==_iff k (length e.label_keys)).0 same))))
        | inr other ↦ rw (load-store k (length e.label_keys) updated p.collectors) (rw other refl)
      ]

  -- The metric of the last delivery to a subscriber of a metric that goes to the same place.
  abbrev pub last_alike : ℕ → Metric F → List (Delivery (Metric F)) → Option (Metric F)
  last_alike n e [] = none
  last_alike n e (d ∷ ds) = elim (last_alike n e ds) [
    | some m ↦ some m
    | none ↦ if alike_to prometheus_receiver n e d then some d.message else none
  ]

  abbrev instead : Option (Metric F) → Option (Metric F) → Option (Metric F)
  instead none o = o
  instead (some m) o = some (without_interval m)

  instead_step :
      (later : Option (Metric F)) (m : Metric F) (chosen : Bool) (o : Option (Metric F))
      → instead later (if chosen then some (without_interval m) else o)
        ≡ instead (elim later [ some l ↦ some l | none ↦ if chosen then some m else none ]) o
  instead_step none m true o = refl
  instead_step none m false o = refl
  instead_step (some l) m chosen o = refl

  -- A call that may not be for this subscriber.
  delivered-shown :
      (own : Bool) (now : ℕ) (m e : Metric F) (p : Prometheus F)
      → BuildersEmpty p
      → shown_in e (if own then receive_metric now m p else p)
        ≡ (if own && is_alike m e then some (without_interval m) else shown_in e p)
  delivered-shown true now m e p empty = receive_metric-shown now m e p empty
  delivered-shown false now m e p empty = refl

  delivered-BuildersEmpty :
      (own : Bool) (now : ℕ) (m : Metric F) (p : Prometheus F)
      → BuildersEmpty p
      → BuildersEmpty (if own then receive_metric now m p else p)
  delivered-BuildersEmpty true now m p empty = receive_metric-BuildersEmpty now m p empty
  delivered-BuildersEmpty false now m p empty = empty

  calls-shown :
      (n : ℕ) (clock : ℕ → ℕ) (i : ℕ) (ds : List (Delivery (Metric F))) (e : Metric F)
      (p : Prometheus F)
      → BuildersEmpty p
      → shown_in e (calls prometheus_receiver n clock i ds p)
        ≡ instead (last_alike n e ds) (shown_in e p)
  unfolding calls
  calls-shown n clock i [] e p empty = refl
  calls-shown n clock i (d ∷ ds) e p empty =
      let own = d.subscriber == n in
      calls-shown n clock (suc i) ds e (if own then receive_metric (clock i) d.message p else p)
        (delivered-BuildersEmpty own (clock i) d.message p empty)
      ∙ ap (instead (last_alike n e ds)) (delivered-shown own (clock i) d.message e p empty)
      ∙ instead_step (last_alike n e ds) d.message (own && is_alike d.message e) (shown_in e p)

  last_alike-some :
      (n : ℕ) (e m : Metric F) (ds : List (Delivery (Metric F)))
      → last_alike n e ds ≡ some m
      → is_alike m e ≡ true
  last_alike-some n e m [] h = cc
  last_alike-some n e m (d ∷ ds) h = elim (Option-cases (last_alike n e ds)) [
    | inr (l, later) ↦ last_alike-some n e m ds (later ∙ (rw later at h))
    | inl never ↦ elim (Bool-cases (d.subscriber == n)) [
      | inl own ↦ elim (Bool-cases (is_alike d.message e)) [
        | inl alike ↦
            let same : d.message ≡ m = cc (rw (own, alike) at (rw never at h)) in
            ap (λ k. is_alike k e) (sym same) ∙ alike
        | inr unlike ↦ cc (rw (own, unlike) at (rw never at h))
      ]
      | inr other ↦ cc (rw other at (rw never at h))
    ]
  ]

  last_alike-none :
      (n : ℕ) (e : Metric F) (ds : List (Delivery (Metric F)))
      → last_alike n e ds ≡ none
      → count (alike_to prometheus_receiver n e) ds ≡ 0
  last_alike-none n e [] h = refl
  last_alike-none n e (d ∷ ds) h = elim (Option-cases (last_alike n e ds)) [
    | inr (l, later) ↦ cc (rw later at h)
    | inl never ↦ elim (Bool-cases (alike_to prometheus_receiver n e d)) [
      | inl chosen ↦ cc (rw chosen at (rw never at h))
      | inr passed ↦ rw passed (last_alike-none n e ds never)
    ]
  ]

  -- What Prometheus has in the place of a metric is the last delivered metric that goes there.
  pub record Shown (n : ℕ) (e : Metric F) (ds : List (Delivery (Metric F))) (p : Prometheus F)
      : Type 0 where
    pub source : Metric F
    pub last : last_alike n e ds ≡ some source
    pub alike : is_alike source e ≡ true
    pub shown : shown_in e p ≡ some (without_interval source)

  pub calls-Shown :
      (n : ℕ) (clock : ℕ → ℕ) (i : ℕ) (ds : List (Delivery (Metric F))) (e : Metric F)
      (p : Prometheus F)
      → 1 ≤ count (alike_to prometheus_receiver n e) ds
      → BuildersEmpty p
      → Shown n e ds (calls prometheus_receiver n clock i ds p)
  calls-Shown n clock i ds e p some_call empty = elim (Option-cases (last_alike n e ds)) [
    | inl never ↦ absurd (omega (arith, some_call, last_alike-none n e ds never))
    | inr (m, last) ↦ record {
      source = m;
      last = last;
      alike = last_alike-some n e m ds last;
      shown = calls-shown n clock i ds e p empty ∙ ap (λ o. instead o (shown_in e p)) last;
    }
  ]

module _ {F Sample : Type 0}
    (new_const_metric : Desc → MetricType → F → List String → Option Sample)
    (new_metric_with_timestamp : F → Sample → Sample) (is_zero : F → Bool) where
  -- A scrape shows the entry of a metric, and but for its interval the entry has the metric of the last
  -- delivery of one with the same number of labels and the same key.
  pub record ScrapedLast (n : ℕ) (e : Metric F) (ds : List (Delivery (Metric F))) (p : Prometheus F)
      : Type 0 where
    pub scraped : Scraped new_const_metric new_metric_with_timestamp is_zero e p
    pub source : Metric F
    pub last : last_alike n e ds ≡ some source
    pub alike : is_alike source e ≡ true
    pub same : without_interval scraped.process.metric ≡ without_interval source

  pub Shown-ScrapedLast :
      (n : ℕ) (e : Metric F) (ds : List (Delivery (Metric F))) (p : Prometheus F)
      → Scraped new_const_metric new_metric_with_timestamp is_zero e p
      → Shown n e ds p
      → ScrapedLast n e ds p
  Shown-ScrapedLast n e ds p scraped s = record {
    scraped = scraped;
    source = s.source;
    last = s.last;
    alike = s.alike;
    same = cc (rw scraped.there at (rw scraped.found at s.shown));
  }
