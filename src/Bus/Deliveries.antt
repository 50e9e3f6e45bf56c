-- ===== src/Bus/Deliveries.antt =====
-- The buses of pkg/bus/bus.go. A subscriber is a number, and a publication starts one goroutine for each
-- of them: it is pending until it has called the subscriber, and goroutines run in any order.
use sg_core.Data.{Metric}
use sg_core.Prelude.{ℕ, zero, suc, List, [], ◌∷◌, ◌++◌, map}

pub record Delivery (E : Type 0) : Type 0 where
  pub subscriber : ℕ
  pub message : E

-- An EventBus or a MetricBus, with the goroutines that have not run and the calls made.
pub record EventBus (E : Type 0) : Type 0 where
  pub subscribers : List ℕ
  pub pending : List (Delivery E)
  pub delivered : List (Delivery E)

module _ {E : Type 0} where
  unfoldable pub subscribe : ℕ → EventBus E → EventBus E
  subscribe rf eb = record eb { subscribers = eb.subscribers ++ rf ∷ [] }

  abbrev pub started : E → List ℕ → List (Delivery E)
  started e subscribers = map (λ rf. record { subscriber = rf; message = e }) subscribers

  unfoldable pub publish : E → EventBus E → EventBus E
  publish e eb = record eb { pending = eb.pending ++ started e eb.subscribers }

  -- The rest of a list without the element at a place.
  unfoldable pub taken : ℕ → List (Delivery E) → List (Delivery E)
  taken n [] = []
  taken zero (d ∷ ds) = d ∷ []
  taken (suc n) (d ∷ ds) = taken n ds

  unfoldable pub left : ℕ → List (Delivery E) → List (Delivery E)
  left n [] = []
  left zero (d ∷ ds) = ds
  left (suc n) (d ∷ ds) = d ∷ left n ds

  -- A pending goroutine calls its subscriber.
  unfoldable pub run_goroutine : ℕ → EventBus E → EventBus E
  unfolding taken left
  run_goroutine n eb = record eb {
    pending = left n eb.pending;
    delivered = eb.delivered ++ taken n eb.pending;
  }

  unfoldable pub run_all : List ℕ → EventBus E → EventBus E
  unfolding run_goroutine
  run_all [] eb = eb
  run_all (n ∷ ns) eb = run_all ns (run_goroutine n eb)

  -- PublishBlocking goes on once its goroutines have run, in the order that `schedule` gives.
  unfoldable pub publish_blocking : E → List ℕ → EventBus E → EventBus E
  unfolding publish run_all
  publish_blocking e schedule eb = run_all schedule (publish e eb)

-- The metric bus: the arguments of a call are one message.
abbrev pub MetricBus : Type 0 → Type 0
MetricBus F = EventBus (Metric F)

unfoldable pub subscribe_metrics : {F : Type 0} → ℕ → MetricBus F → MetricBus F
subscribe_metrics rf mb = record mb { subscribers = mb.subscribers ++ rf ∷ [] }

unfoldable pub publish_metrics : {F : Type 0} → Metric F → MetricBus F → MetricBus F
publish_metrics m mb = record mb { pending = mb.pending ++ started m mb.subscribers }
