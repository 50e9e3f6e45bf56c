-- ===== src/Events/Sanitize.antt =====
-- When the loop of sanitize in plugins/handler/events/collectd/collectd.go ends.
use sg_core.Prelude.{
  ℕ, zero, suc, ◌<◌, ◌≡◌, ◌⊎◌, refl, arith, true, false, String, none, some, Bool-cases, inl, inr,
}
use sg_core.Handler.{Published}
use sg_core.Events.Collectd.{Rexes, Packages, clean_loop, sanitize, collectd_event_handler}

module _ (r : Rexes) where
  clean_loop-stuck :
      (fuel : ℕ) (s : String)
      → r.finds_invalid_ves (r.unquote_nested s) ≡ true
      → r.finds_remained_nested (r.unquote_nested s) ≡ true
      → clean_loop r fuel s ≡ none
  unfolding clean_loop
  clean_loop-stuck zero s invalid nested = refl
  clean_loop-stuck (suc fuel) s invalid nested =
      rw nested (rw invalid (clean_loop-stuck fuel s invalid nested))

  -- In the next rounds from a text each cleaned text that keeps nested quotes is valid, and smaller by a
  -- measure than the text before. Of no other text anything is asked.
  unfoldable pub Shrinks : (String → ℕ) → ℕ → String → Type 0
  Shrinks size zero s = Unit
  Shrinks size (suc rounds) s =
      r.finds_remained_nested (r.unquote_nested s) ≡ true
      → (r.finds_invalid_ves (r.unquote_nested s) ≡ false)
        × (size (r.unquote_nested s) < size s)
        × Shrinks size rounds (r.unquote_nested s)

  -- If in its next rounds from a text each cleaned text that keeps nested quotes is valid and smaller by
  -- some measure than the text before, the loop ends within as many rounds as the measure of the text and
  -- one. Its result is a text without nested quotes, or one whose cleaned text is invalid and has none.
  pub clean_loop_ends :
      (size : String → ℕ) (fuel : ℕ) (s : String)
      → Shrinks size fuel s
      → size s < fuel
      → (t : String) × (clean_loop r fuel s ≡ some t)
        × ((r.finds_remained_nested t ≡ false)
            ⊎ ((r.finds_invalid_ves (r.unquote_nested t) ≡ true)
                × (r.finds_remained_nested (r.unquote_nested t) ≡ false)))
  unfolding clean_loop Shrinks
  clean_loop_ends size zero s shrinks enough = absurd (omega (arith, enough))
  clean_loop_ends size (suc fuel) s shrinks enough =
      elim (Bool-cases (r.finds_remained_nested (r.unquote_nested s))) [
        | inl nested ↦
            let (valid, shorter, later) = shrinks nested in
            rw nested (
              rw valid (
                clean_loop_ends size fuel (r.unquote_nested s) later
                  (omega (arith, enough, shorter))))
        | inr clean ↦ elim (Bool-cases (r.finds_invalid_ves (r.unquote_nested s))) [
          | inl invalid ↦ rw clean (rw invalid (s, refl, inr (invalid, clean)))
          | inr valid ↦ rw clean (rw valid (r.unquote_nested s, refl, inl clean))
        ]
      ]

-- A message whose "ves" field has, once unquoted, an invalid string and nested quotes that remain keeps the
-- loop in the same state: no number of rounds ends it, and the handler never returns.
pub collectd_event_handler-stuck :
    {F : Type 0} (p : Packages F) (fuel : ℕ) (blob ves : String) (out : Published F)
    → p.rexes.find_ves blob ≡ some ves
    → p.rexes.finds_invalid_ves (p.rexes.unquote_nested ves) ≡ true
    → p.rexes.finds_remained_nested (p.rexes.unquote_nested ves) ≡ true
    → collectd_event_handler p fuel blob out ≡ none
unfolding collectd_event_handler sanitize
collectd_event_handler-stuck p fuel blob ves out found invalid nested =
    rw (collectd_event_handler, sanitize, found)
      (rw (clean_loop-stuck p.rexes fuel ves invalid nested) refl)
