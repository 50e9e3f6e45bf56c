-- ===== src/Prometheus/Collector.antt =====
-- PromCollector and metricExpiry of plugins/application/prometheus/main.go. Times are nanoseconds of
-- the monotonic clock. A metricProcess holds the arrival time that its metricExpiry keeps: the two
-- are made together and there is one of each.
use sg_core.Prelude.{
  ℕ, ◌-◌, Bool, true, false, String, List, [], ◌∷◌, Option, none, some, Dict, lookup, insert,
  remove, map_values, ℤ, pos, lebℤ, if◌then◌else◌,
}
use Prim.Native.String.{◌++◌}
use sg_core.Data.{MetricType, Metric}
use sg_core.Prometheus.Expiry.{ExpiryProc, register, check}

-- What prometheus.NewDesc is given.
pub record Desc : Type 0 where
  pub fq_name : String
  pub variable_labels : List String

pub record MetricProcess (F : Type 0) : Type 0 where
  pub description : Desc
  pub last_arrival : ℕ
  pub metric : Metric F
  pub scrapped : Bool

pub record PromCollector (F : Type 0) : Type 0 where
  pub m_proc : Dict (MetricProcess F)
  pub dimensions : ℕ
  pub with_timestamp : Bool
  pub cache_index_builder : String

-- The label values, one behind the other.
unfoldable pub concat_vals : List String → String
concat_vals [] = ""
concat_vals (v ∷ vs) = v ++ concat_vals vs

-- The text in the builder once the name and the label values are written to it.
unfoldable pub cache_key : String → String → List String → String
unfolding concat_vals
cache_key builder name label_vals = builder ++ (name ++ concat_vals label_vals)

module _ {F : Type 0} where
  unfoldable pub new_prom_collector : ℕ → Bool → PromCollector F
  new_prom_collector dimensions with_timestamp = record {
    m_proc = [];
    dimensions = dimensions;
    with_timestamp = with_timestamp;
    cache_index_builder = "";
  }

  -- A metric that is new to the collector.
  unfoldable pub new_process : ℕ → Metric F → MetricProcess F
  new_process now m = record {
    description = record { fq_name = m.name; variable_labels = m.label_keys };
    last_arrival = now;
    metric = m;
    scrapped = false;
  }

  -- A metric that is known: its interval and its description stay.
  unfoldable pub refresh : ℕ → Metric F → MetricProcess F → MetricProcess F
  refresh now m p = record p {
    last_arrival = now;
    metric = record m { interval = p.metric.interval };
  }

  -- What UpdateMetrics does under a key, from what pc.mProc.Load(key) finds.
  unfoldable pub update_under :
      ℕ
      → Metric F
      → String
      → Option (MetricProcess F)
      → PromCollector F × ExpiryProc String
      → PromCollector F × ExpiryProc String
  unfolding new_process refresh register
  update_under now m key none (pc, ep) = (
    record pc { m_proc = insert key (new_process now m) pc.m_proc; cache_index_builder = "" },
    register key ep,
  )
  update_under now m key (some p) (pc, ep) =
      (record pc { m_proc = insert key (refresh now m p) pc.m_proc; cache_index_builder = "" }, ep)

  -- UpdateMetrics at the time `now`.
  unfoldable pub update_metrics :
      ℕ → Metric F → PromCollector F × ExpiryProc String → PromCollector F × ExpiryProc String
  unfolding update_under
  update_metrics now m (pc, ep) =
      let key = cache_key pc.cache_index_builder m.name m.label_vals in
      update_under now m key (lookup key pc.m_proc) (pc, ep)

  -- metricExpiry.Expired: time.Since(lastArrival) >= interval. A key that the map lacks may answer
  -- either way, for Delete keeps its entry and changes nothing.
  unfoldable pub metric_expired : ℕ → ℤ → String → PromCollector F → Bool
  metric_expired now interval key pc = elim (lookup key pc.m_proc) [
    | none ↦ true
    | some p ↦ lebℤ interval (pos (now - p.last_arrival))
  ]

  -- metricExpiry.Delete: only what has been scraped goes.
  unfoldable pub metric_delete : String → PromCollector F → PromCollector F × Bool
  metric_delete key pc = elim (lookup key pc.m_proc) [
    | none ↦ (pc, false)
    | some p ↦
        if p.scrapped then (record pc { m_proc = remove key pc.m_proc }, true) else (pc, false)
  ]

  -- A check of the metrics' expiry process at the time `now`.
  unfoldable pub check_metrics :
      ℕ → ExpiryProc String × PromCollector F → ExpiryProc String × PromCollector F
  unfolding check metric_expired metric_delete
  check_metrics now (ep, pc) = check (metric_expired now) metric_delete ep pc

  abbrev pub mark : MetricProcess F → MetricProcess F
  mark p = record p { scrapped = true }

  -- Describe
  unfoldable pub describe : Dict (MetricProcess F) → List Desc
  describe [] = []
  describe ((k, p) ∷ m) = p.description ∷ describe m

  -- Collect, with prometheus.NewConstMetric and NewMetricWithTimestamp, and the test of a float64
  -- for zero, as arguments: a sample for each metric that NewConstMetric takes.
  module _ {Sample : Type 0}
      (new_const_metric : Desc → MetricType → F → List String → Option Sample)
      (new_metric_with_timestamp : F → Sample → Sample) (is_zero : F → Bool) where
    unfoldable pub sample : Bool → MetricProcess F → Sample → Sample
    sample with_timestamp p s =
        if with_timestamp
        then (if is_zero p.metric.time then s else new_metric_with_timestamp p.metric.time s)
        else s

    unfoldable pub samples : Bool → Dict (MetricProcess F) → List Sample
    unfolding sample
    samples with_timestamp [] = []
    samples with_timestamp ((k, p) ∷ m) =
        let rest = samples with_timestamp m in
        elim (new_const_metric p.description p.metric.type p.metric.value p.metric.label_vals) [
          | none ↦ rest
          | some s ↦ sample with_timestamp p s ∷ rest
        ]

    unfoldable pub collect : PromCollector F → PromCollector F × List Sample
    unfolding samples
    collect pc =
        (record pc { m_proc = map_values mark pc.m_proc }, samples pc.with_timestamp pc.m_proc)
