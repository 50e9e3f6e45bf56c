-- ===== src/Handler.antt =====
-- What the handler plugins share: the two publish functions (pkg/bus/bus.go) seen from a handler, as
-- the lists of what it has published, the error event of the metric handlers and the metrics that
-- each handler's Run sends about itself.
use sg_core.Prelude.{ℕ, String, List, [], ◌∷◌, ◌++◌, ℤ, pos}
use sg_core.Data.{Event, Metric, counter, error, critical, str}

pub record Published (F : Type 0) : Type 0 where
  pub metrics : List (Metric F)
  pub events : List (Event F)

abbrev pub second : ℤ
second = pos 1000000000

module _ {F : Type 0} where
  unfoldable pub publish_metric : Metric F → Published F → Published F
  publish_metric m out = record out { metrics = out.metrics ++ m ∷ [] }

  unfoldable pub publish_event : Event F → Published F → Published F
  publish_event e out = record out { events = out.events ++ e ∷ [] }

module _ {F : Type 0} (float64 : ℕ → F) where
  -- The event with which a handler called `identity` reports an error.
  unfoldable pub error_event : String → String → String → String → Event F
  error_event identity err message description = record {
    index = identity;
    time = float64 0;
    type = error;
    publisher = "";
    severity = critical;
    labels = ("error", str err) ∷ ("message", str message) ∷ [];
    annotations = ("description", str description) ∷ [];
    message = "";
  }

  -- A counter that Run sends every second.
  unfoldable pub own_metric : String → ℕ → Metric F
  own_metric name value = record {
    name = name;
    time = float64 0;
    type = counter;
    interval = pos 0;
    value = float64 value;
    label_keys = "source" ∷ [];
    label_vals = "SG" ∷ [];
  }
