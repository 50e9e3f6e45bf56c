-- ===== src/Prometheus/Application.antt =====
-- The plugin of plugins/application/prometheus/main.go: its collectors by their number of labels, the
-- expiry processes of metrics by their interval, and that of the collectors. An entry of a process of
-- metrics is a collector and a key. The registry is a library's: the calls of it are recorded.
use sg_core.Prelude.{
  ℕ, ◌==◌, Bool, true, false, ◌&&◌, String, List, [], ◌∷◌, ◌++◌, length, Option, none, some, ℤ, pos,
  lebℤ, ◌*ℤ◌, wrap64, if◌then◌else◌,
}
use sg_core.Data.{Metric}
use sg_core.Prometheus.Expiry.{ExpiryProc, new_expiry_proc, register, check}
use sg_core.Prometheus.Collector.{
  PromCollector, new_prom_collector, update_metrics, metric_expired, metric_delete,
}

pub record ConfigT : Type 0 where
  pub host : String
  pub port : ℤ
  pub with_timestamp : Bool
  pub expiration_multiple : ℤ

pub data RegistryCall : Type 0 where
  registers unregisters : ℕ → RegistryCall

-- An entry of a process of metrics.
pub record MetricEntry : Type 0 where
  pub dimension : ℕ
  pub key : String

pub record Prometheus (F : Type 0) : Type 0 where
  pub configuration : ConfigT
  pub collectors : List (ℕ × PromCollector F)
  pub metric_expiry_procs : List (ℤ × ExpiryProc MetricEntry)
  pub collector_expiry_proc : ExpiryProc ℕ
  pub registry_calls : List RegistryCall

unfoldable pub new_prometheus : {F : Type 0} → Prometheus F
new_prometheus = record {
  configuration = record {
    host = "127.0.0.1";
    port = pos 3000;
    with_timestamp = false;
    expiration_multiple = pos 2;
  };
  collectors = [];
  metric_expiry_procs = [];
  collector_expiry_proc = new_expiry_proc (pos 10000000000);
  registry_calls = [];
}

-- Config, with what config.ParseConfig makes of the configuration: it may set fields and fail.
unfoldable pub configure :
    {F : Type 0} → (ConfigT → ConfigT × Option String) → Prometheus F → Prometheus F × Option String
configure parse_config p =
    let parsed = parse_config p.configuration in (record p { configuration = parsed.0 }, parsed.1)

-- sync.Map with numbers for keys: Load, Store and Delete.
module _ {V : Type 0} where
  unfoldable pub load : ℕ → List (ℕ × V) → Option V
  load k [] = none
  load k ((j, v) ∷ m) = if j == k then some v else load k m

  unfoldable pub store : ℕ → V → List (ℕ × V) → List (ℕ × V)
  store k v [] = (k, v) ∷ []
  store k v ((j, w) ∷ m) = let later = store k v m in if j == k then (j, v) ∷ m else (j, w) ∷ later

  unfoldable pub delete : ℕ → List (ℕ × V) → List (ℕ × V)
  delete k [] = []
  delete k ((j, w) ∷ m) = let later = delete k m in if j == k then later else (j, w) ∷ later

-- The same with intervals for keys; an interval is never deleted.
abbrev same_interval : ℤ → ℤ → Bool
same_interval a b = lebℤ a b && lebℤ b a

module _ {V : Type 0} where
  unfoldable pub load_proc : ℤ → List (ℤ × V) → Option V
  load_proc k [] = none
  load_proc k ((j, v) ∷ m) = if same_interval j k then some v else load_proc k m

  unfoldable pub store_proc : ℤ → V → List (ℤ × V) → List (ℤ × V)
  store_proc k v [] = (k, v) ∷ []
  store_proc k v ((j, w) ∷ m) =
      let later = store_proc k v m in if same_interval j k then (j, v) ∷ m else (j, w) ∷ later

-- The keys that UpdateMetrics has registered go to the shared process.
unfoldable pub enlist : ℕ → List (Option String) → ExpiryProc MetricEntry → ExpiryProc MetricEntry
unfolding register
enlist dimension [] ep = ep
enlist dimension (none ∷ keys) ep = enlist dimension keys ep
enlist dimension (some key ∷ keys) ep =
    enlist dimension keys (register (record { dimension = dimension; key = key }) ep)

module _ {F : Type 0} where
  -- The collector of a number of labels, and whether it is new: a new one is registered.
  unfoldable pub collector_for : ℕ → Prometheus F → PromCollector F × Bool
  unfolding load new_prom_collector
  collector_for dimension p = elim (load dimension p.collectors) [
    | some pc ↦ (pc, false)
    | none ↦ (new_prom_collector dimension p.configuration.with_timestamp, true)
  ]

  unfoldable pub proc_for : ℤ → Prometheus F → ExpiryProc MetricEntry
  unfolding load_proc new_expiry_proc
  proc_for interval p = elim (load_proc interval p.metric_expiry_procs) [
    | some ep ↦ ep
    | none ↦ new_expiry_proc (wrap64 (interval *ℤ p.configuration.expiration_multiple))
  ]

  -- A new collector gets an entry that can expire it, under the lock of the collectors' process.
  unfoldable pub enlist_collector : ℕ → Prometheus F → Prometheus F
  unfolding register
  enlist_collector dimension p = record p {
    collector_expiry_proc = register dimension p.collector_expiry_proc;
  }

  -- MustRegister, a call of the library.
  unfoldable pub must_register : ℕ → Prometheus F → Prometheus F
  must_register dimension p = record p {
    registry_calls = p.registry_calls ++ registers dimension ∷ [];
  }

  unfoldable pub register_collector : ℕ → Bool → Prometheus F → Prometheus F
  unfolding enlist_collector must_register
  register_collector dimension is_new p =
      if is_new then must_register dimension (enlist_collector dimension p) else p

  -- ReceiveMetric at the time `now`.
  unfoldable pub receive_metric : ℕ → Metric F → Prometheus F → Prometheus F
  unfolding collector_for proc_for enlist register_collector update_metrics store store_proc
  receive_metric now m p =
      let dimension = length m.label_keys in
      let (pc, is_new) = collector_for dimension p in
      let (pc', registered) = update_metrics now m (pc, new_expiry_proc (pos 0)) in
      record (register_collector dimension is_new p) {
        collectors = store dimension pc' p.collectors;
        metric_expiry_procs =
            store_proc m.interval (enlist dimension registered.entries (proc_for m.interval p))
              p.metric_expiry_procs;
      }

  -- metricExpiry over the collectors.
  unfoldable pub entry_expired : ℕ → ℤ → MetricEntry → List (ℕ × PromCollector F) → Bool
  unfolding metric_expired load
  entry_expired now interval e cs = elim (load e.dimension cs) [
    | none ↦ true
    | some pc ↦ metric_expired now interval e.key pc
  ]

  unfoldable pub entry_delete :
      MetricEntry → List (ℕ × PromCollector F) → List (ℕ × PromCollector F) × Bool
  unfolding metric_delete load store
  entry_delete e cs = elim (load e.dimension cs) [
    | none ↦ (cs, false)
    | some pc ↦ let (pc', gone) = metric_delete e.key pc in (store e.dimension pc' cs, gone)
  ]

  -- A check of the process of an interval.
  unfoldable pub check_interval : ℕ → ℤ → Prometheus F → Prometheus F
  unfolding load_proc check entry_expired entry_delete store_proc
  check_interval now interval p = elim (load_proc interval p.metric_expiry_procs) [
    | none ↦ p
    | some ep ↦
        let (ep', cs) = check (entry_expired now) entry_delete ep p.collectors in
        record p {
          collectors = cs;
          metric_expiry_procs = store_proc interval ep' p.metric_expiry_procs;
        }
  ]

  -- collectorExpiry: a collector without metrics is unregistered and deleted.
  abbrev pub is_empty : Option (PromCollector F) → Bool
  is_empty none = true
  is_empty (some pc) = elim (pc.m_proc) [ [] ↦ true | e ∷ es ↦ false ]

  unfoldable pub collector_expired : ℤ → ℕ → Prometheus F → Bool
  unfolding load
  collector_expired interval dimension p = is_empty (load dimension p.collectors)

  unfoldable pub collector_delete : ℕ → Prometheus F → Prometheus F × Bool
  unfolding delete
  collector_delete dimension p = (
    record p {
      collectors = delete dimension p.collectors;
      registry_calls = p.registry_calls ++ unregisters dimension ∷ [];
    },
    true,
  )

  -- A check of the process of the collectors, whose entries are its own.
  unfoldable pub check_collectors : Prometheus F → Prometheus F
  unfolding check collector_expired collector_delete
  check_collectors p =
      let (ep, p') = check collector_expired collector_delete p.collector_expiry_proc p in
      record p' { collector_expiry_proc = ep }

  -- The end of Run: every collector is unregistered.
  unfoldable pub unregister_all : List (ℕ × PromCollector F) → List RegistryCall
  unregister_all [] = []
  unregister_all ((dimension, pc) ∷ cs) = unregisters dimension ∷ unregister_all cs

  unfoldable pub shut_down : Prometheus F → Prometheus F
  unfolding unregister_all
  shut_down p = record p { registry_calls = p.registry_calls ++ unregister_all p.collectors }
