-- ===== src/Prometheus/Tests.antt =====
-- Runs of the metrics cache, and its theorems at concrete inputs. A float64 is a number here.
use sg_core.Prelude.{
  ℕ, ◌≡◌, refl, Bool, false, String, List, [], ◌∷◌, Option, none, some, lookup, insert, map_values,
  pos, if◌then◌else◌,
}
use sg_core.Data.{Metric, MetricType, gauge}
use sg_core.Prometheus.Expiry.{ExpiryProc, new_expiry_proc}
use sg_core.Prometheus.Collector.{
  Desc, PromCollector, new_prom_collector, new_process, refresh, update_metrics, check_metrics,
  collect, cache_key,
}
use sg_core.Prometheus.Tracking.{Tracked, doom}
use sg_core.Prometheus.Staleness.{check_metrics-exact, update_metrics-Updated}
use sg_core.Prometheus.Collision.{update_metrics-collision}
use sg_core.Prometheus.Application.{Prometheus, new_prometheus, load, check_collectors, is_empty}
use sg_core.Prometheus.Collectors.{Enlisted}
use sg_core.Prometheus.Emptied.{check_collectors-exact}
use sg_core.Prometheus.Served
use sg_core.Prometheus.Served.{
  receives, checks_metrics, checks_collectors, run-Enlisted, new_prometheus-Enlisted,
}
use sg_core.Prometheus.History.{run, updates, checks, scrapes, run-Tracked}

-- A metric `up` with two labels.
abbrev up : String → String → ℕ → Metric ℕ
up host disk value = record {
  name = "up";
  time = 0;
  type = gauge;
  interval = pos 10;
  value = value;
  label_keys = "host" ∷ "disk" ∷ [];
  label_vals = host ∷ disk ∷ [];
}

abbrev const_metric : Desc → MetricType → ℕ → List String → Option ℕ
const_metric d t v ls = some v

abbrev stamp : ℕ → ℕ → ℕ
stamp t s = s

abbrev never_zero : ℕ → Bool
never_zero t = false

abbrev collector : PromCollector ℕ
collector = record { m_proc = []; dimensions = 2; with_timestamp = false; cache_index_builder = "" }

abbrev entries : ExpiryProc String
entries = record { entries = []; interval = pos 20 }

empty-Tracked : Tracked collector entries
unfolding lookup
empty-Tracked = record { keys = []; listed = refl; distinct = tt; matching = λ k. refl }

abbrev one : PromCollector ℕ × ExpiryProc String
one = update_metrics 5 (up "a" "c" 1) (collector, entries)

check_metrics-exact_example :
    ((j : String)
      → lookup j (check_metrics 30 (one.1, one.0)).1.m_proc
        ≡ (if doom 30 one.1.interval (lookup j one.0.m_proc) then none else lookup j one.0.m_proc))
    × Tracked (check_metrics 30 (one.1, one.0)).1 (check_metrics 30 (one.1, one.0)).0
check_metrics-exact_example =
    check_metrics-exact 30 one.1 one.0
      (update_metrics-Updated 5 (up "a" "c" 1) collector entries refl empty-Tracked).tracked

-- `host = "ab", disk = "c"` and `host = "a", disk = "bc"`.
update_metrics-collision_example :
    (lookup
        (cache_key "" "up" ("ab" ∷ "c" ∷ []))
        (update_metrics 6
          (up "a" "bc" 2)
          (update_metrics 5 (up "ab" "c" 1) (collector, entries))).0.m_proc
      ≡ some (refresh 6 (up "a" "bc" 2) (new_process 5 (up "ab" "c" 1))))
    × ((update_metrics 6
          (up "a" "bc" 2)
          (update_metrics 5 (up "ab" "c" 1) (collector, entries))).1.entries
        ≡ (update_metrics 5 (up "ab" "c" 1) (collector, entries)).1.entries)
unfolding cache_key lookup
update_metrics-collision_example =
    update_metrics-collision 5 6 (up "ab" "c" 1) (up "a" "bc" 2) collector entries refl refl
      empty-Tracked refl

abbrev calls : List (sg_core.Prometheus.History.Call ℕ)
calls = updates 5 (up "a" "c" 1) ∷ checks 30 ∷ scrapes ∷ checks 31 ∷ []

abbrev start : PromCollector ℕ × ExpiryProc String
start = (new_prom_collector 2 false, new_expiry_proc (pos 20))

-- The metric outlives the first check, which comes before a scrape, and not the second.
stale_goes : (run const_metric stamp never_zero calls start).1.entries ≡ []
unfolding run new_prom_collector new_expiry_proc update_metrics check_metrics collect cache_key
    lookup insert map_values
stale_goes = refl

run-Tracked_example :
    Tracked
      (run const_metric stamp never_zero calls start).0
      (run const_metric stamp never_zero calls start).1
    × ((run const_metric stamp never_zero calls start).0.cache_index_builder ≡ "")
run-Tracked_example = run-Tracked const_metric stamp never_zero calls 2 false (pos 20)

-- A metric comes and is checked; the collector, not yet empty, is checked as well.
abbrev plugin_calls : List (sg_core.Prometheus.Served.Call ℕ)
plugin_calls = receives 5 (up "a" "c" 1) ∷ checks_metrics 30 (pos 10) ∷ checks_collectors ∷ []

run-Enlisted_example : Enlisted (sg_core.Prometheus.Served.run plugin_calls new_prometheus)
run-Enlisted_example = run-Enlisted plugin_calls new_prometheus new_prometheus-Enlisted

abbrev plugin : Prometheus ℕ
plugin = sg_core.Prometheus.Served.run plugin_calls new_prometheus

check_collectors-exact_example :
    ((d : ℕ)
      → load d (check_collectors plugin).collectors
        ≡ (if is_empty (load d plugin.collectors) then none else load d plugin.collectors))
    × Enlisted (check_collectors plugin)
check_collectors-exact_example =
    check_collectors-exact plugin (run-Enlisted plugin_calls new_prometheus new_prometheus-Enlisted)
