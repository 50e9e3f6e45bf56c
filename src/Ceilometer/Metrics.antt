-- ===== src/Ceilometer/Metrics.antt =====
-- The handler of plugins/handler/ceilometer-metrics/main.go. What is done with float64 values, and
-- time.Parse, are arguments; counters are uint64.
use Prim.Native.String.{◌++◌}
use sg_core.Prelude.{
  ℕ, Bool, ◌&&◌, ◌||◌, not, String, str_eq, List, [], ◌∷◌, Option, none, some, ℤ, pos, ◌*ℤ◌,
  if◌then◌else◌, Outcome, returns, ◌>>=◌, inc64, split, ◌⊎◌, inl, inr,
}
use sg_core.Data.{MetricType, untyped, counter, gauge, Metric}
use sg_core.Handler.{Published, publish_event, publish_metric, error_event, own_metric, second}
use sg_core.Ceilometer.Message.{
  CeilometerMetric, Message, Ceilometer, Decoders, new_ceilometer, parse_input_json,
  parse_input_msg_pack,
}
use sg_core.Ceilometer.Labels.{gen_name, gen_labels}

abbrev pub metric_timeout : ℤ
metric_timeout = pos 100

-- A type that is not in the map is its zero value.
unfoldable pub metric_type : String → MetricType
metric_type s =
    if str_eq s "cumulative"
    then counter
    else if str_eq s "delta"
    then untyped
    else if str_eq s "gauge"
    then gauge
    else untyped

pub record Handler (F : Type 0) : Type 0 where
  pub ceilo : Ceilometer
  pub total_metrics_decoded : ℕ
  pub total_decode_errors : ℕ
  pub total_messages_received : ℕ
  pub source : String
  pub out : Published F

abbrev pub identify : String
identify = "ceilometer-metrics"

unfoldable pub new_handler : {F : Type 0} → Published F → Handler F
unfolding new_ceilometer
new_handler out = record {
  ceilo = new_ceilometer;
  total_metrics_decoded = 0;
  total_decode_errors = 0;
  total_messages_received = 0;
  source = "";
  out = out;
}

abbrev pub missing_name : String
missing_name = "missing 'counter_name' in metric payload"

-- The errors of validateMessage: `none` for a message without one.
unfoldable pub validate_message : {F : Type 0} → Message F → Option String
validate_message msg =
    if str_eq msg.publisher ""
    then some "message missing field 'publisher_id'"
    else elim (msg.payload) [ [] ↦ some "message contains no payload" | m ∷ ms ↦ none ]

-- What the handler does with times and float64 values.
pub record Times (F : Type 0) : Type 0 where
  pub float64 : ℕ → F
  pub below_zero : F → Bool
  -- The seconds that time.Parse makes of a text, as a float64.
  pub unix_time : String → F

module _ {F : Type 0} (times : Times F) (decoders : Decoders F) where
  unfoldable pub report_error : Bool → String → Handler F → Handler F
  unfolding error_event publish_event
  report_error report_errs err c =
      let counted : Handler F = record c { total_decode_errors = inc64 c.total_decode_errors } in
      if report_errs
      then record counted {
        out =
            publish_event
              (error_event times.float64 identify err "failed to parse metric - disregarding"
                "internal smartgateway ceilometer-metrics handler error")
              c.out;
      }
      else counted

  unfoldable pub metric_time : String → F
  metric_time timestamp =
      let t = times.unix_time timestamp in if times.below_zero t then times.float64 0 else t

  unfoldable pub named_metric : CeilometerMetric F → List String × List String → Metric F
  unfolding metric_time metric_type gen_name
  named_metric m labels = record {
    name = gen_name (split b'.' m.counter_name);
    time = metric_time m.timestamp;
    type = metric_type m.counter_type;
    interval = second *ℤ metric_timeout;
    value = m.counter_volume;
    label_keys = labels.0;
    label_vals = labels.1;
  }

  -- The loop over the payload: it ends at the first metric without a name.
  unfoldable pub write_payload :
      Bool → String → List (CeilometerMetric F) → Handler F → Outcome (Handler F × Option String)
  unfolding named_metric gen_labels report_error publish_metric
  write_payload report_errs publisher [] c = returns (c, none)
  write_payload report_errs publisher (m ∷ ms) c =
      if str_eq m.counter_name ""
      then returns (report_error report_errs missing_name c, some missing_name)
      else gen_labels m publisher (split b'.' m.counter_name) >>= (λ labels.
        write_payload report_errs publisher ms (record c {
          total_metrics_decoded = inc64 c.total_metrics_decoded;
          out = publish_metric (named_metric m labels) c.out;
        }))

  -- The switch on the source.
  unfoldable pub parse_input : String → Handler F → Handler F × (String ⊎ Message F)
  unfolding parse_input_json parse_input_msg_pack
  parse_input blob c =
      if str_eq c.source "tcp" || str_eq c.source "udp"
      then (c, parse_input_msg_pack decoders blob)
      else (let parsed = parse_input_json decoders blob c.ceilo in
          (record c { ceilo = parsed.0 }, parsed.1))

  -- Handle, once the message is decoded.
  unfoldable pub handle_message : Bool → Message F → Handler F → Outcome (Handler F × Option String)
  unfolding validate_message report_error write_payload
  handle_message report_errs msg c = elim (validate_message msg) [
    | some err ↦ returns (report_error report_errs err c, some err)
    | none ↦ write_payload report_errs msg.publisher msg.payload c
  ]

  unfoldable pub handle : String → Bool → Handler F → Outcome (Handler F × Option String)
  unfolding parse_input handle_message
  handle blob report_errs c =
      let parsed =
        parse_input blob (record c { total_messages_received = inc64 c.total_messages_received }) in
      elim (parsed.1) [
        | inl err ↦ returns (parsed.0, some err)
        | inr msg ↦ handle_message report_errs msg parsed.0
      ]

  -- What Run sends for each tick of its timer.
  unfoldable pub run_tick : Handler F → Handler F
  unfolding own_metric publish_metric
  run_tick c = record c {
    out =
        publish_metric
          (own_metric times.float64 "sg_total_ceilometer_msg_received_count"
            c.total_messages_received)
          (publish_metric
            (own_metric times.float64 "sg_total_ceilometer_metric_decode_error_count"
              c.total_decode_errors)
            (publish_metric
              (own_metric times.float64 "sg_total_ceilometer_metric_decode_count"
                c.total_metrics_decoded)
              c.out));
  }

-- Config, with what config.ParseConfig makes of the source and strings.ToLower.
unfoldable pub configure :
    {F : Type 0}
    → (String → String × Option String)
    → (String → String)
    → Handler F
    → Handler F × Option String
configure parse_config to_lower c =
    let parsed = parse_config "unix" in
    let source = to_lower (parsed.0) in
    elim (parsed.1) [
      | some err ↦ (record c { source = parsed.0 }, some err)
      | none ↦
          if not (str_eq source "unix") && (not (str_eq source "tcp") && not (str_eq source "udp"))
          then (
            record c { source = source },
            some (
                "incorrect source, should be either \"unix\", \"tcp\" or \"udp\", received: "
                ++ source),
          )
          else (record c { source = source }, none)
    ]
