-- ===== src/Bus/Complete.antt =====
-- Every subscriber receives every message.
use sg_core.Prelude.{
  ℕ, zero, suc, ◌+◌, ◌≡◌, refl, ap, ◌∙◌, arith, Bool, List, [], ◌∷◌, ◌++◌, if◌then◌else◌,
}
use sg_core.Bus.Deliveries.{
  Delivery, EventBus, started, publish, taken, left, run_goroutine, run_all, publish_blocking,
}

module _ {E : Type 0} (chosen : Delivery E → Bool) where
  -- How many deliveries of a list are of the kind that `chosen` tells.
  abbrev pub count : List (Delivery E) → ℕ
  count [] = 0
  count (d ∷ ds) = if chosen d then suc (count ds) else count ds

  pub count-append : (ds es : List (Delivery E)) → count (ds ++ es) ≡ count ds + count es
  count-append [] es = omega arith
  count-append (d ∷ ds) es = ground (arith, count-append ds es)

  taken-left : (n : ℕ) (ds : List (Delivery E)) → count (taken n ds) + count (left n ds) ≡ count ds
  unfolding taken left
  taken-left n [] = refl
  taken-left zero (d ∷ ds) = ground arith
  taken-left (suc n) (d ∷ ds) = ground (arith, taken-left n ds)

  -- The deliveries made and to be made.
  abbrev pub total : EventBus E → ℕ
  total eb = count eb.delivered + count eb.pending

  pub run_goroutine-total : (n : ℕ) (eb : EventBus E) → total (run_goroutine n eb) ≡ total eb
  unfolding run_goroutine
  run_goroutine-total n eb =
      omega (arith, count-append eb.delivered (taken n eb.pending), taken-left n eb.pending)

  run_all-total : (schedule : List ℕ) (eb : EventBus E) → total (run_all schedule eb) ≡ total eb
  unfolding run_all
  run_all-total [] eb = refl
  run_all-total (n ∷ ns) eb = run_all-total ns (run_goroutine n eb) ∙ run_goroutine-total n eb

  -- A blocking publication of which no goroutine is left to run has called each subscriber once with the
  -- message, in whatever order the goroutines ran: of any kind, the deliveries made are those that were
  -- made or pending before and one for each subscriber.
  pub publish_blocking_complete :
      (e : E) (schedule : List ℕ) (eb : EventBus E)
      → (publish_blocking e schedule eb).pending ≡ []
      → count (publish_blocking e schedule eb).delivered
        ≡ count eb.delivered + count eb.pending + count (started e eb.subscribers)
  unfolding publish_blocking publish
  publish_blocking_complete e schedule eb done =
      let r = publish_blocking e schedule eb in
      omega (
        arith,
        ap count done,
        run_all-total schedule (publish e eb),
        count-append eb.pending (started e eb.subscribers),
      )
