-- ===== src/Collectd/Messages.antt =====
-- What the handler makes of a whole message.
use sg_core.Prelude.{
  ℕ, suc, ◌≤◌, ◌≡◌, refl, sym, ap, ◌∙◌, Bool, false, String, List, [], ◌∷◌, ◌++◌, append-nil,
  append_assoc, length, arith, inl, inr, ℤ, Outcome, returns, inc64, All, if◌then◌else◌, Bool-cases,
}
use sg_core.Data.{Metric}
use sg_core.Collectd.Metrics.{
  CollectdMetric, Handler, elements, validate_metric, write_metrics, write_all, decode_error,
  handle,
}
use sg_core.Collectd.Valid.{bump, side_by_side, with_metrics, write_metrics-writes}

module _ {F : Type 0} (float64 : ℕ → F) where
  pub decode_error-counts :
      (report : Bool) (err : String) (c : Handler F)
      → ((decode_error float64 report err c).out.metrics ≡ c.out.metrics)
        × ((decode_error float64 report err c).total_decode_errors ≡ inc64 c.total_decode_errors)
        × ((decode_error float64 report err c).total_messages_received ≡ c.total_messages_received)
        × ((decode_error float64 report err c).total_metrics_decoded ≡ c.total_metrics_decoded)
  unfolding decode_error
  decode_error-counts report err c = (ground arith, ground arith, ground arith, ground arith)

bump-length :
    {A : Type 0} (xs ys : List A) (n : ℕ)
    → bump (length ys) (bump (length xs) n) ≡ bump (length (xs ++ ys)) n
bump-length [] ys n = refl
bump-length (x ∷ xs) ys n = bump-length xs ys (inc64 n)

module _ {F T : Type 0} (float64 : ℕ → F) (to_float : T → F) (to_duration : F → ℤ) where
  abbrev pub Matched : CollectdMetric F T → Type 0
  Matched m = length (elements m.dsnames) ≤ length (elements m.dstypes)

  -- The metrics of the valid entries of a message.
  abbrev pub all_metrics : List (CollectdMetric F T) → List (Metric F)
  all_metrics [] = []
  all_metrics (m ∷ ms) =
      if validate_metric m
      then side_by_side float64 to_float to_duration m (elements m.dsnames) (elements m.dstypes)
          (elements m.values)
        ++ all_metrics ms
      else all_metrics ms

  abbrev pub invalid : List (CollectdMetric F T) → ℕ
  invalid [] = 0
  invalid (m ∷ ms) = if validate_metric m then invalid ms else suc (invalid ms)

  -- How the loop over `ms` ends: it returns, the metrics of the valid entries are published in order and
  -- each counted, and each entry that is not valid counts as one error.
  pub record Wrote (ms : List (CollectdMetric F T)) (c : Handler F) (r : Outcome (Handler F))
      : Type 0 where
    pub next : Handler F
    pub result : r ≡ returns next
    pub metrics : next.out.metrics ≡ c.out.metrics ++ all_metrics ms
    pub errors : next.total_decode_errors ≡ bump (invalid ms) c.total_decode_errors
    pub decoded :
        next.total_metrics_decoded ≡ bump (length (all_metrics ms)) c.total_metrics_decoded
    pub received : next.total_messages_received ≡ c.total_messages_received

  write_metrics-invalid :
      (m : CollectdMetric F T) (c : Handler F)
      → validate_metric m ≡ false
      → write_metrics float64 to_float to_duration m c ≡ returns (c, false)
  unfolding write_metrics
  write_metrics-invalid m c h = rw h

  write_all-Wrote :
      (report : Bool) (ms : List (CollectdMetric F T)) (c : Handler F)
      → All Matched ms
      → Wrote ms c (write_all float64 to_float to_duration report ms c)
  unfolding write_all
  write_all-Wrote report [] c h = record {
    next = c;
    result = refl;
    metrics = sym (append-nil c.out.metrics);
    errors = refl;
    decoded = refl;
    received = refl;
  }
  write_all-Wrote report (m ∷ ms) c h = elim (Bool-cases (validate_metric m)) [
    | inl valid ↦
        let written =
          side_by_side float64 to_float to_duration m (elements m.dsnames) (elements m.dstypes)
            (elements m.values) in
        let w = write_all-Wrote report ms (with_metrics written c) h.1 in
        record {
          next = w.next;
          result = rw (write_metrics-writes float64 to_float to_duration m c valid h.0) w.result;
          metrics = w.metrics ∙ append_assoc c.out.metrics _ _ ∙ (rw valid);
          errors = w.errors ∙ (rw valid);
          decoded =
              w.decoded ∙ bump-length written (all_metrics ms) c.total_metrics_decoded ∙ (rw valid);
          received = w.received;
        }
    | inr bad ↦
        let w = write_all-Wrote report ms (decode_error float64 report "" c) h.1 in
        let d = decode_error-counts float64 report "" c in
        record {
          next = w.next;
          result = rw (write_metrics-invalid m c bad) w.result;
          metrics = w.metrics ∙ ap (λ l. l ++ all_metrics ms) d.0 ∙ (rw bad);
          errors = w.errors ∙ ap (bump (invalid ms)) d.1 ∙ (rw bad);
          decoded = w.decoded ∙ ap (bump (length (all_metrics ms))) d.3 ∙ (rw bad);
          received = w.received ∙ d.2;
        }
  ]

  -- A message that decodes and in which no metric has more names than types is handled to its end: the
  -- metrics of the valid entries are published in order and each counted, each other entry counts as one
  -- error, and the message is counted once.
  pub handle-Wrote :
      (report : Bool) (ms : List (CollectdMetric F T)) (c : Handler F)
      → All Matched ms
      → Wrote ms
          (record c { total_messages_received = inc64 c.total_messages_received })
          (handle float64 to_float to_duration (inr ms) report c)
  unfolding handle
  handle-Wrote report ms c h = write_all-Wrote report ms _ h
