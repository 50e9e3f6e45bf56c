-- ===== src/Bus/Tests.antt =====
-- A blocking publication to two subscribers.
use sg_core.Prelude.{ℕ, Bool, ◌==◌, [], ◌∷◌}
use sg_core.Bus.Deliveries.{Delivery, EventBus}

abbrev two_subscribers : EventBus ℕ
two_subscribers = record { subscribers = 1 ∷ 2 ∷ []; pending = []; delivered = [] }

abbrev to_second : Delivery ℕ → Bool
to_second d = d.subscriber == 2
