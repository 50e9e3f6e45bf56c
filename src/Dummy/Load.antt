-- ===== src/Dummy/Load.antt =====
-- plugins/transport/dummy-metrics, dummy-events and dummy-logs: their configurations, and what their Run
-- writes. Random numbers, the time and JSON are arguments. A turn of Run is one case of its select.
use Prim.Native.String.{String, ◌++◌}
use sg_core.Prelude.{
  ℕ, ◌+◌, Bool, true, List, [], ◌∷◌, ◌++◌ as ◌+++◌, Option, some, ℤ, pos, ◌⊎◌, inl, inr,
  if◌then◌else◌, Outcome,
}
use sg_core.Config.Parse.{Packages, parse_config}
use sg_core.Collectd.Metrics.{CollectdMetric}
use sg_core.Dummy.Messages.{event_messages, log_messages, ceilometer_message}

pub data Turn : Type 0 where
  cancelled : Turn
  ticked : Turn

pub record ConfigT : Type 0 where
  pub ceilometer : Bool
  pub collectd : Bool
  pub interval : ℤ

unfoldable pub default_config : ConfigT
default_config = record { ceilometer = true; collectd = true; interval = pos 1 }

-- Config: the defaults are set again whatever the configuration was.
unfoldable pub configure : Packages ConfigT → String → Outcome (ConfigT × Option String)
unfolding default_config parse_config
configure p c = parse_config p (inr c) default_config

-- A tick of dummy-events: the first message, and those behind it.
unfoldable pub write_events : ConfigT → List String → List String
write_events c [] = []
write_events c (first ∷ rest) =
    (if c.ceilometer then first ∷ [] else []) +++ (if c.collectd then rest else [])

-- Run of dummy-events.
unfoldable pub run_events : ConfigT → List Turn → List String
unfolding write_events
run_events c [] = []
run_events c (cancelled ∷ turns) = []
run_events c (ticked ∷ turns) = write_events c event_messages +++ run_events c turns

-- A float64 of the metrics is sent as it is, and read as the time.
abbrev pub DummyMetric : Type 0 → Type 0
DummyMetric F = CollectdMetric F F

-- rand.Float64() by the number of its call, multiplication by a constant, and the time in seconds.
pub record Generator (F : Type 0) : Type 0 where
  pub random : ℕ → F
  pub times : F → ℕ → F
  pub now : ℕ → F
  pub five : F
  pub marshal : List (DummyMetric F) → String ⊎ String

module _ {F : Type 0} (g : Generator F) where
  unfoldable pub gen_metric : ℕ → String → String → DummyMetric F
  gen_metric i first second = record {
    values = some (g.times (g.random i) 1000 ∷ g.times (g.random (i + 1)) 10000 ∷ []);
    dstypes = some ("derive" ∷ "counter" ∷ []);
    dsnames = some (first ∷ second ∷ []);
    time = g.now i;
    interval = g.five;
    host = "controller-0.redhat.local";
    plugin = "virt";
    plugin_instance = "asdf";
    type = "if_packets";
    type_instance = "tap73125d-60";
  }

  -- The metrics of genCollectdMessage, at the i-th random number.
  unfoldable pub gen_metrics : ℕ → List (DummyMetric F)
  unfolding gen_metric
  gen_metrics i = gen_metric i "rx" "tx" ∷ gen_metric (i + 2) "in" "out" ∷ []

  -- genCollectdMessage; the error is dropped, and a nil slice written.
  unfoldable pub gen_collectd_message : ℕ → String
  unfolding gen_metrics
  gen_collectd_message i = elim (g.marshal (gen_metrics i)) [ inl err ↦ "" | inr r ↦ r ]

  -- Run of dummy-metrics.
  unfoldable pub run_metrics : ConfigT → ℕ → List Turn → List String
  unfolding gen_collectd_message
  run_metrics c i [] = []
  run_metrics c i (cancelled ∷ turns) = []
  run_metrics c i (ticked ∷ turns) =
      let rest = run_metrics c (if c.collectd then i + 4 else i) turns in
      (if c.ceilometer then ceilometer_message ∷ [] else [])
      +++ ((if c.collectd then gen_collectd_message i ∷ [] else []) +++ rest)

-- A message of dummy-logs: it fails before its select if the time has no text.
pub data LogTurn : Type 0 where
  no_timestamp : LogTurn
  log_cancelled : LogTurn
  log_ticked : String → LogTurn

abbrev log_text : String → String → String
log_text timestamp ending = "{\"@timestamp\":\"" ++ (timestamp ++ ending)

abbrev front : List String → String
front [] = ""
front (s ∷ ss) = s

abbrev behind : List String → List String
behind [] = []
behind (s ∷ ss) = ss

-- Run of dummy-logs, with the endings that are left of a round.
unfoldable pub run_logs : List String → List LogTurn → List String
run_logs endings [] = []
run_logs endings (log_cancelled ∷ turns) = []
run_logs [] (no_timestamp ∷ turns) = run_logs (behind log_messages) turns
run_logs (ending ∷ rest) (no_timestamp ∷ turns) = run_logs rest turns
run_logs [] (log_ticked timestamp ∷ turns) =
    log_text timestamp (front log_messages) ∷ run_logs (behind log_messages) turns
run_logs (ending ∷ rest) (log_ticked timestamp ∷ turns) =
    log_text timestamp ending ∷ run_logs rest turns
