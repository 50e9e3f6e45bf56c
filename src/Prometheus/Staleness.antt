-- ===== src/Prometheus/Staleness.antt =====
-- The operations of a collector keep the metrics tracked, and what a check takes.
use sg_core.Prelude.{
  is_some, ℕ, ◌≡◌, refl, sym, ap, ◌∙◌, Bool, ◌&&◌, not, String, str_eq, eq_iff, List, [], ◌∷◌, ◌++◌,
  Option, none, some, Dict, lookup, lookup-insert, contains, contains-append, Distinct,
  Distinct-append, lookup-map_values, map_option, map-append, subst, ℤ, if◌then◌else◌, arith,
}
use sg_core.Data.{Metric, MetricType}
use sg_core.Prometheus.Expiry.{ExpiryProc}
use sg_core.Prometheus.Collector.{
  Desc, MetricProcess, PromCollector, cache_key, new_process, refresh, update_under, update_metrics,
  mark, check_metrics, collect,
}
use sg_core.Prometheus.Tracking.{Tracked, doom, kept, Checked, check_loop-Checked}

module _ {F : Type 0} where
  contains-kept :
      (now : ℕ) (interval : ℤ) (m : Dict (MetricProcess F)) (j : String) (ks : List String)
      → contains j (kept now interval m ks)
        ≡ (contains j ks && not (doom now interval (lookup j m)))
  unfolding kept
  contains-kept now interval m j [] = refl
  contains-kept now interval m j (k ∷ ks) =
      ground (arith, eq_iff k j, contains-kept now interval m j ks)

  Distinct-kept :
      (now : ℕ) (interval : ℤ) (m : Dict (MetricProcess F)) (ks : List String)
      → Distinct ks
      → Distinct (kept now interval m ks)
  unfolding kept
  Distinct-kept now interval m [] d = d
  Distinct-kept now interval m (k ∷ ks) d =
      ground (arith, Distinct-kept now interval m ks d.1, contains-kept now interval m k ks, d.0)

  doom_tracked :
      (now : ℕ) (interval : ℤ) (b : Bool) (o : Option (MetricProcess F))
      → b ≡ is_some o
      → (b && doom now interval o) ≡ doom now interval o
  doom_tracked now interval b none h = ground arith
  doom_tracked now interval b (some p) h = ground arith

  -- After a check of a collector whose metrics are tracked, a metric is gone exactly if it was stale
  -- for the interval and had been scraped; every other metric is as it was, and all are tracked.
  pub check_metrics-exact :
      (now : ℕ) (ep : ExpiryProc String) (pc : PromCollector F)
      → Tracked pc ep
      → ((j : String)
          → lookup j (check_metrics now (ep, pc)).1.m_proc
            ≡ (if doom now ep.interval (lookup j pc.m_proc) then none else lookup j pc.m_proc))
        × Tracked (check_metrics now (ep, pc)).1 (check_metrics now (ep, pc)).0
  unfolding check_metrics
  check_metrics-exact now ep pc t = (
    exact,
    record {
      keys = kept now ep.interval pc.m_proc t.keys;
      listed = rw t.listed c.0;
      distinct = Distinct-kept now ep.interval pc.m_proc t.keys t.distinct;
      matching = λ k.
          ground (arith, contains-kept now ep.interval pc.m_proc k t.keys, exact k, t.matching k);
    },
  )
    where
      c : Checked now ep.interval t.keys pc
      c = check_loop-Checked now ep.interval t.keys pc t.distinct

      exact :
          (j : String)
          → lookup j (check_metrics now (ep, pc)).1.m_proc
            ≡ (if doom now ep.interval (lookup j pc.m_proc) then none else lookup j pc.m_proc)
      exact j = rw t.listed (
          c.1 j
          ∙ (rw (
              doom_tracked now ep.interval (contains j t.keys) (lookup j pc.m_proc)
                (t.matching j))))

  -- What an update leaves under its key, from what was there.
  abbrev pub updated : ℕ → Metric F → Option (MetricProcess F) → MetricProcess F
  updated now m none = new_process now m
  updated now m (some p) = refresh now m p

  -- The entries after an update, from those before and what was found under the key.
  abbrev pub registered :
      String → Option (MetricProcess F) → List (Option String) → List (Option String)
  registered key none entries = entries ++ some key ∷ []
  registered key (some p) entries = entries

  -- What an update at `key` leaves of a tracked collector.
  pub record Updated (now : ℕ) (m : Metric F) (key : String) (pc : PromCollector F)
      (ep : ExpiryProc String) (r : PromCollector F × ExpiryProc String) : Type 0 where
    pub found :
        (j : String)
        → lookup j r.0.m_proc ≡ (
            if str_eq key j
            then some (updated now m (lookup key pc.m_proc))
            else lookup j pc.m_proc)
    pub enlisted : r.1.entries ≡ registered key (lookup key pc.m_proc) ep.entries
    pub emptied : r.0.cache_index_builder ≡ ""
    pub tracked : Tracked r.0 r.1

  update_under-Updated :
      (now : ℕ) (m : Metric F) (key : String) (o : Option (MetricProcess F)) (pc : PromCollector F)
      (ep : ExpiryProc String)
      → lookup key pc.m_proc ≡ o
      → Tracked pc ep
      → Updated now m key pc ep (update_under now m key o (pc, ep))
  unfolding update_under
  update_under-Updated now m key none pc ep e t = record {
    found = λ j. lookup-insert key j (new_process now m) pc.m_proc ∙ (rw e);
    enlisted = rw e;
    emptied = refl;
    tracked = record {
      keys = t.keys ++ key ∷ [];
      listed = ap (λ l. l ++ some key ∷ []) t.listed ∙ sym (map-append some t.keys (key ∷ []));
      distinct = Distinct-append key t.keys (t.matching key ∙ (rw e)) t.distinct;
      matching = λ k. ground (
        arith,
        contains-append k key t.keys,
        lookup-insert key k (new_process now m) pc.m_proc,
        t.matching k,
      );
    };
  }
  update_under-Updated now m key (some p) pc ep e t = record {
    found = λ j. lookup-insert key j (refresh now m p) pc.m_proc ∙ (rw e);
    enlisted = rw e;
    emptied = refl;
    tracked = record {
      keys = t.keys;
      listed = t.listed;
      distinct = t.distinct;
      matching = λ k. ground (
        arith,
        eq_iff key k,
        lookup-insert key k (refresh now m p) pc.m_proc,
        t.matching k,
        t.matching key,
        e,
      );
    };
  }

  -- An update that finds the builder empty files the metric under the name and label values, as new or
  -- over what was there, touches no other metric, registers a new key and no other, leaves the builder empty and keeps all tracked.
  pub update_metrics-Updated :
      (now : ℕ) (m : Metric F) (pc : PromCollector F) (ep : ExpiryProc String)
      → pc.cache_index_builder ≡ ""
      → Tracked pc ep
      → Updated now m (cache_key "" m.name m.label_vals) pc ep (update_metrics now m (pc, ep))
  unfolding update_metrics
  update_metrics-Updated now m pc ep empty t =
      subst
        (λ b. Updated now m (cache_key b m.name m.label_vals) pc ep (update_metrics now m (pc, ep)))
        empty
        (update_under-Updated now m (cache_key pc.cache_index_builder m.name m.label_vals) _ pc ep
          refl t)

  -- A scrape keeps the metrics tracked, and marks each as scraped with nothing else changed.
  pub collect-Tracked :
      {Sample : Type 0} (new_const_metric : Desc → MetricType → F → List String → Option Sample)
      (new_metric_with_timestamp : F → Sample → Sample) (is_zero : F → Bool) (pc : PromCollector F)
      (ep : ExpiryProc String)
      → Tracked pc ep
      → Tracked (collect new_const_metric new_metric_with_timestamp is_zero pc).0 ep
  unfolding collect
  collect-Tracked c w z pc ep t = record {
    keys = t.keys;
    listed = t.listed;
    distinct = t.distinct;
    matching = λ k.
        t.matching k
        ∙ is_some-mark (lookup k pc.m_proc)
        ∙ ap is_some (sym (lookup-map_values k mark pc.m_proc));
  }
    where
      is_some-mark : (o : Option (MetricProcess F)) → is_some o ≡ is_some (map_option mark o)
      is_some-mark none = refl
      is_some-mark (some p) = refl
