-- ===== src/Gateway/Receiver.antt =====
-- MetricReceiver and EventReceiver of pkg/application/application.go: what the buses ask of an application,
-- and the calls of pkg/bus/bus.go seen by one of the subscribers.
use sg_core.Prelude.{
  ℕ, suc, ◌+◌, ◌≤◌, ◌==◌, ◌≡◌, ap, ◌∙◌, arith, Bool, true, false, ◌&&◌, List, [], ◌∷◌, ◌++◌,
  Bool-cases, inl, inr, if◌then◌else◌,
}
use sg_core.Bus.Deliveries.{Delivery, EventBus, started, publish, run_goroutine}
use sg_core.Bus.Complete.{count, count-append, total, run_goroutine-total}

-- An application: what a call at a time does, which messages it holds, and in which states it is sound.
-- Two messages may be alike, as metrics are that it keeps in one place.
pub record MessageReceiver (E S : Type 0) : Type 1 where
  pub receive : ℕ → E → S → S
  pub is_alike : E → E → Bool
  pub holds : E → S → Bool
  pub IsSound : S → Type 0
  pub alike_refl : (e : E) → is_alike e e ≡ true
  pub receive_sound : (now : ℕ) (e : E) (s : S) → IsSound s → IsSound (receive now e s)
  pub receive_holds :
      (now : ℕ) (d e : E) (s : S)
      → IsSound s
      → is_alike d e ≡ true
      → holds e (receive now d s) ≡ true
  pub receive_keeps :
      (now : ℕ) (d e : E) (s : S) → IsSound s → holds e s ≡ true → holds e (receive now d s) ≡ true

-- What happens on a bus: a handler publishes, or a goroutine that waits makes its call.
pub data Act (E : Type 0) : Type 0 where
  publishes : E → Act E
  delivers : ℕ → Act E

module _ {E : Type 0} where
  unfoldable pub act : Act E → EventBus E → EventBus E
  act (publishes e) eb = publish e eb
  act (delivers n) eb = run_goroutine n eb

  unfoldable pub act_all : List (Act E) → EventBus E → EventBus E
  unfolding act
  act_all [] eb = eb
  act_all (a ∷ acts) eb = act_all acts (act a eb)

  abbrev pub published : List (Act E) → List E
  published [] = []
  published (publishes e ∷ acts) = e ∷ published acts
  published (delivers n ∷ acts) = published acts

  -- The deliveries that some publications start.
  abbrev all_started : List E → List ℕ → List (Delivery E)
  all_started [] subscribers = []
  all_started (e ∷ es) subscribers = started e subscribers ++ all_started es subscribers

  module _ (chosen : Delivery E → Bool) where
    act_all-total :
        (acts : List (Act E)) (eb : EventBus E)
        → total chosen (act_all acts eb)
          ≡ total chosen eb + count chosen (all_started (published acts) eb.subscribers)
    unfolding act_all act publish run_goroutine
    act_all-total [] eb = omega arith
    act_all-total (publishes e ∷ acts) eb = omega (
      arith,
      act_all-total acts (publish e eb),
      count-append chosen eb.pending (started e eb.subscribers),
      count-append chosen (started e eb.subscribers) (all_started (published acts) eb.subscribers),
    )
    act_all-total (delivers n ∷ acts) eb =
        act_all-total acts (run_goroutine n eb)
        ∙ ap (λ t. t + count chosen (all_started (published acts) eb.subscribers))
            (run_goroutine-total chosen n eb)

    all_started-append :
        (es fs : List E) (subscribers : List ℕ)
        → count chosen (all_started (es ++ fs) subscribers)
          ≡ count chosen (all_started es subscribers) + count chosen (all_started fs subscribers)
    all_started-append [] fs subscribers = omega arith
    all_started-append (e ∷ es) fs subscribers = omega (
      arith,
      all_started-append es fs subscribers,
      count-append chosen (started e subscribers) (all_started es subscribers),
      count-append chosen (started e subscribers) (all_started (es ++ fs) subscribers),
    )

abbrev pub is_subscribed : ℕ → List ℕ → Bool
is_subscribed n [] = false
is_subscribed n (rf ∷ rfs) = if rf == n then true else is_subscribed n rfs

module _ {E S : Type 0} (r : MessageReceiver E S) where
  open r use {
    receive, is_alike, holds, IsSound, alike_refl, receive_sound, receive_holds, receive_keeps,
  }

  -- The calls that a subscriber gets, the clock telling the time of each delivery.
  unfoldable pub calls : ℕ → (ℕ → ℕ) → ℕ → List (Delivery E) → S → S
  calls n clock i [] s = s
  calls n clock i (d ∷ ds) s =
      let called = receive (clock i) d.message s in
      calls n clock (suc i) ds (if d.subscriber == n then called else s)

  -- A delivery to a subscriber of a message that is alike.
  abbrev pub alike_to : ℕ → E → Delivery E → Bool
  alike_to n e d = (d.subscriber == n) && is_alike d.message e

  pub record Held (e : E) (s : S) : Type 0 where
    pub sound : IsSound s
    pub held : holds e s ≡ true

  calls-kept :
      (n : ℕ) (clock : ℕ → ℕ) (i : ℕ) (ds : List (Delivery E)) (e : E) (s : S)
      → Held e s
      → Held e (calls n clock i ds s)
  unfolding calls
  calls-kept n clock i [] e s h = h
  calls-kept n clock i (d ∷ ds) e s h = elim (Bool-cases (d.subscriber == n)) [
    | inl own ↦ rw own (
        calls-kept n clock (suc i) ds e (receive (clock i) d.message s) record {
          sound = receive_sound (clock i) d.message s h.sound;
          held = receive_keeps (clock i) d.message e s h.sound h.held;
        })
    | inr other ↦ rw other (calls-kept n clock (suc i) ds e s h)
  ]

  calls-Held :
      (n : ℕ) (clock : ℕ → ℕ) (i : ℕ) (ds : List (Delivery E)) (e : E) (s : S)
      → 1 ≤ count (alike_to n e) ds
      → IsSound s
      → Held e (calls n clock i ds s)
  unfolding calls
  calls-Held n clock i [] e s some_call h = absurd (omega (arith, some_call))
  calls-Held n clock i (d ∷ ds) e s some_call h = elim (Bool-cases (d.subscriber == n)) [
    | inl own ↦ elim (Bool-cases (is_alike d.message e)) [
      | inl alike ↦ rw own (
          calls-kept n clock (suc i) ds e (receive (clock i) d.message s) record {
            sound = receive_sound (clock i) d.message s h;
            held = receive_holds (clock i) d.message e s h alike;
          })
      | inr unlike ↦ rw own (
          calls-Held n clock (suc i) ds e (receive (clock i) d.message s)
            (rw (own, unlike) at some_call) (receive_sound (clock i) d.message s h))
    ]
    | inr other ↦ rw other (calls-Held n clock (suc i) ds e s (rw other at some_call) h)
  ]

  started-alike :
      (n : ℕ) (e : E) (subscribers : List ℕ)
      → is_subscribed n subscribers ≡ true
      → 1 ≤ count (alike_to n e) (started e subscribers)
  started-alike n e [] h = cc
  started-alike n e (rf ∷ rfs) h = elim (Bool-cases (rf == n)) [
    | inl own ↦ rw (own, alike_refl e) (omega arith)
    | inr other ↦ rw other (started-alike n e rfs (rw other at h))
  ]

  -- Once no goroutine is left, each message that was published has been delivered to a subscriber.
  pub published-called :
      (n : ℕ) (acts : List (Act E)) (eb : EventBus E) (before : List E) (e : E) (after : List E)
      → published acts ≡ before ++ e ∷ after
      → is_subscribed n eb.subscribers ≡ true
      → (act_all acts eb).pending ≡ []
      → 1 ≤ count (alike_to n e) (act_all acts eb).delivered
  published-called n acts eb before e after made subscribed done =
      let chosen = alike_to n e in
      omega (
        arith,
        act_all-total chosen acts eb,
        ap (count chosen) done,
        ap (λ es. count chosen (all_started es eb.subscribers)) made,
        all_started-append chosen before (e ∷ after) eb.subscribers,
        count-append chosen (started e eb.subscribers) (all_started after eb.subscribers),
        started-alike n e eb.subscribers subscribed,
      )

  -- Once no goroutine is left, a subscriber holds each message that was published, in whatever order
  -- messages were published and goroutines ran.
  pub published-Held :
      (n : ℕ) (clock : ℕ → ℕ) (acts : List (Act E)) (eb : EventBus E) (s : S) (before : List E)
      (e : E) (after : List E)
      → published acts ≡ before ++ e ∷ after
      → is_subscribed n eb.subscribers ≡ true
      → (act_all acts eb).pending ≡ []
      → IsSound s
      → Held e (calls n clock 0 (act_all acts eb).delivered s)
  published-Held n clock acts eb s before e after made subscribed done sound =
      calls-Held n clock 0 (act_all acts eb).delivered e s
        (published-called n acts eb before e after made subscribed done) sound
