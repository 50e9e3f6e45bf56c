-- ===== src/Sensubility/Metrics.antt =====
-- The handler of plugins/handler/sensubility-metrics/main.go. Decoding JSON, time.Parse and the
-- conversions to float64 are arguments.
use Prim.Native.String.{◌++◌}
use sg_core.Prelude.{
  ℕ, Bool, String, List, [], ◌∷◌, Option, length, if◌then◌else◌, ℤ, pos, ◌+ℤ◌, ◌*ℤ◌, wrap64, ltbℤ,
  ◌||◌, ◌⊎◌, inl, inr,
}
use sg_core.Data.{Metric, gauge}
use sg_core.Handler.{Published, publish_metric, publish_event, error_event, own_metric, second}
use sg_core.Events.Time.{epoch_from_format}
use sg_core.Sensubility.Message.{
  Message, HealthCheck, is_msg_valid, is_output_valid, build_msg_err, build_outputs_err,
  missing_error,
}

pub record Handler (F : Type 0) : Type 0 where
  pub total_metrics_decoded : ℤ
  pub total_decode_errors : ℤ
  pub total_messages_received : ℤ
  pub metric_interval : ℤ
  pub out : Published F

-- What Handle returns: no error, or the text of one.
pub data Returned : Type 0 where
  no_error : Returned
  error_of : String → Returned

abbrev pub identify : String
identify = "sensubility-metrics"

-- An int64 counter goes up by a number.
abbrev pub add64 : ℤ → ℕ → ℤ
add64 c n = wrap64 (c +ℤ pos n)

module _ {F : Type 0} (float64 : ℕ → F) (float64_of_int : ℤ → F) where
  unfoldable pub publish_err_event : String → Handler F → Handler F
  unfolding error_event publish_event
  publish_err_event err sm = record sm {
    out =
        publish_event
          (error_event float64 identify err "failed to parse event - disregarding"
            "internal smartgateway sensubility handler error")
          sm.out;
  }

  -- An invalid message counts as one error and is reported if that is asked for.
  unfoldable pub reject : Bool → List String → Handler F → Handler F
  unfolding publish_err_event
  reject report_errors fields sm =
      let counted : Handler F = record sm {
        total_decode_errors = add64 sm.total_decode_errors 1;
      } in
      if report_errors then publish_err_event (missing_error fields) counted else counted

  unfoldable pub output_metric : Handler F → ℤ → Message F → HealthCheck F → Metric F
  output_metric sm epoc msg output = record {
    name = "sensubility_container_health_status";
    time = float64_of_int epoc;
    type = gauge;
    interval = wrap64 (second *ℤ sm.metric_interval);
    value = output.healthy;
    label_keys = "process" ∷ "host" ∷ [];
    label_vals = output.service ∷ msg.labels.client ∷ [];
  }

  unfoldable pub write_outputs : ℤ → Message F → List (HealthCheck F) → Handler F → Handler F
  unfolding publish_metric output_metric
  write_outputs epoc msg [] sm = sm
  write_outputs epoc msg (output ∷ outputs) sm = write_outputs epoc msg outputs (record sm {
    total_metrics_decoded = add64 sm.total_metrics_decoded 1;
    out = publish_metric (output_metric sm epoc msg output) sm.out;
  })

  module _ (unmarshal_outputs : String → String ⊎ List (HealthCheck F))
      (time_parse : String → String → Option ℤ) where
    -- Handle, once the outputs of a valid message are decoded.
    unfoldable pub handle_outputs :
        Bool → Message F → List (HealthCheck F) → Handler F → Handler F × Returned
    unfolding epoch_from_format
    handle_outputs report_errors msg outputs sm =
        if is_output_valid outputs
        then (let epoc = epoch_from_format time_parse msg.starts_at in
            if ltbℤ epoc (pos 0) || ltbℤ (pos 0) epoc
            then (write_outputs epoc msg outputs sm, no_error)
            else (
              sm,
              error_of ("failed determining epoch time from timestamp '" ++ (msg.starts_at ++ "'")),
            ))
        else (let fields = build_outputs_err outputs in
            let sm' = reject report_errors fields sm in
            (
              record sm' { total_decode_errors = add64 sm'.total_decode_errors (length fields) },
              error_of (missing_error fields),
            ))

    -- Handle, from what decoding made of the message.
    unfoldable pub handle : (String ⊎ Message F) → Bool → Handler F → Handler F × Returned
    unfolding handle_outputs reject
    handle (inl err) report_errors sm =
        (record sm { total_messages_received = add64 sm.total_messages_received 1 }, error_of err)
    handle (inr msg) report_errors sm =
        let received : Handler F = record sm {
          total_messages_received = add64 sm.total_messages_received 1;
        } in
        if is_msg_valid msg
        then elim (unmarshal_outputs msg.annotations.output) [
          | inl err ↦ (received, error_of err)
          | inr outputs ↦ handle_outputs report_errors msg outputs received
        ]
        else (
          reject report_errors (build_msg_err msg) received,
          error_of (missing_error (build_msg_err msg)),
        )

  -- What Run sends for each tick of its timer; the counters are converted from int64.
  unfoldable pub run_tick : Handler F → Handler F
  unfolding own_metric publish_metric
  run_tick sm = record sm {
    out =
        publish_metric
          (record (own_metric float64 "sg_total_sensubility_msg_received_count" 0) {
            value = float64_of_int sm.total_messages_received;
          })
          (publish_metric
            (record (own_metric float64 "sg_total_sensubility_metric_decode_error_count" 0) {
              value = float64_of_int sm.total_decode_errors;
            })
            (publish_metric
              (record (own_metric float64 "sg_total_sensubility_metric_decode_count" 0) {
                value = float64_of_int sm.total_metrics_decoded;
              })
              sm.out));
  }

-- Config, with what config.ParseConfig makes of the interval: it may set it, and fail.
unfoldable pub configure :
    {F : Type 0} → (ℤ → ℤ × Option String) → Handler F → Handler F × Option String
configure parse_config sm =
    let parsed = parse_config (pos 10) in (record sm { metric_interval = parsed.0 }, parsed.1)
