-- ===== src/Sensubility/Handled.antt =====
-- What Handle of plugins/handler/sensubility-metrics/main.go makes of each kind of message.
use sg_core.Prelude.{
  ℕ, ◌≡◌, refl, sym, ◌∙◌, Bool, true, false, String, List, [], ◌∷◌, ◌++◌, append-nil, append_assoc,
  map, length, ℤ, pos, ltbℤ, ◌||◌, Option, inr, ◌⊎◌,
}
use sg_core.Events.Time.{epoch_from_format}
use sg_core.Sensubility.Message.{Message, HealthCheck, missing_error, is_msg_valid, is_output_valid}
use sg_core.Sensubility.Metrics.{
  Handler, no_error, error_of, add64, reject, output_metric, write_outputs, handle_outputs, handle,
  publish_err_event,
}
use sg_core.Sensubility.Missing.{missing_services, build_outputs_err-missing}

-- A counter that goes up once for each element of a list.
abbrev pub count_each {ℓ} : {A : Type ℓ} → List A → ℤ → ℤ
count_each [] c = c
count_each (x ∷ xs) c = count_each xs (add64 c 1)

module _ {F : Type 0} (float64 : ℕ → F) (float64_of_int : ℤ → F) where
  -- A message that is handled to its end: one metric for each output, in order, and the counters.
  pub record Handled (epoc : ℤ) (msg : Message F) (outputs : List (HealthCheck F))
      (sm next : Handler F) : Type 0 where
    pub metrics :
        next.out.metrics
        ≡ sm.out.metrics ++ map (output_metric float64 float64_of_int sm epoc msg) outputs
    pub events : next.out.events ≡ sm.out.events
    pub decoded : next.total_metrics_decoded ≡ count_each outputs sm.total_metrics_decoded
    pub errors : next.total_decode_errors ≡ sm.total_decode_errors
    pub received : next.total_messages_received ≡ sm.total_messages_received

  write_outputs-Handled :
      (epoc : ℤ) (msg : Message F) (outputs : List (HealthCheck F)) (sm : Handler F)
      → Handled epoc msg outputs sm (write_outputs float64 float64_of_int epoc msg outputs sm)
  unfolding write_outputs output_metric
  write_outputs-Handled epoc msg [] sm = record {
    metrics = sym (append-nil sm.out.metrics);
    events = refl;
    decoded = refl;
    errors = refl;
    received = refl;
  }
  write_outputs-Handled epoc msg (output ∷ outputs) sm =
      let rest = write_outputs-Handled epoc msg outputs _ in
      record {
        metrics = rest.metrics ∙ append_assoc sm.out.metrics _ _;
        events = rest.events;
        decoded = rest.decoded;
        errors = rest.errors;
        received = rest.received;
      }

  module _ (unmarshal_outputs : String → String ⊎ List (HealthCheck F))
      (time_parse : String → String → Option ℤ) where
    abbrev pub received : Handler F → Handler F
    received sm = record sm { total_messages_received = add64 sm.total_messages_received 1 }

    -- A valid message, whose outputs decode and are valid and whose time is not 0, is handled without an
    -- error: one metric is published for each output, in order, and counted, and the message is counted.
    pub handle-Handled :
        (report : Bool) (msg : Message F) (outputs : List (HealthCheck F)) (sm : Handler F)
        → is_msg_valid msg ≡ true
        → unmarshal_outputs msg.annotations.output ≡ inr outputs
        → is_output_valid outputs ≡ true
        → (ltbℤ (epoch_from_format time_parse msg.starts_at) (pos 0)
            || ltbℤ (pos 0) (epoch_from_format time_parse msg.starts_at))
          ≡ true
        → let r = handle float64 float64_of_int unmarshal_outputs time_parse (inr msg) report sm in
          Handled (epoch_from_format time_parse msg.starts_at) msg outputs (received sm) (r.0)
          × (r.1 ≡ no_error)
    unfolding handle handle_outputs
    handle-Handled report msg outputs sm valid decoded services stamp =
        rw valid (rw decoded (rw services (rw stamp (write_outputs-Handled _ msg outputs _, refl))))

    -- A valid message, whose outputs decode but are not valid, publishes no metric: the error names the
    -- outputs without a service, and the decode errors go up by 1 and then by their number.
    pub handle-missing_services :
        (report : Bool) (msg : Message F) (outputs : List (HealthCheck F)) (sm : Handler F)
        → is_msg_valid msg ≡ true
        → unmarshal_outputs msg.annotations.output ≡ inr outputs
        → is_output_valid outputs ≡ false
        → let r = handle float64 float64_of_int unmarshal_outputs time_parse (inr msg) report sm in
          (r.0.out.metrics ≡ sm.out.metrics)
          × (r.0.total_decode_errors
              ≡ add64 (add64 sm.total_decode_errors 1) (length (missing_services 0 outputs)))
          × (r.1 ≡ error_of (missing_error (missing_services 0 outputs)))
    unfolding handle handle_outputs reject publish_err_event
    handle-missing_services true msg outputs sm valid decoded services =
        rw valid
          (rw decoded (rw services (rw (build_outputs_err-missing outputs) (refl, refl, refl))))
    handle-missing_services false msg outputs sm valid decoded services =
        rw valid
          (rw decoded (rw services (rw (build_outputs_err-missing outputs) (refl, refl, refl))))
