-- ===== src/Collectd/Metrics.antt =====
-- The handler of plugins/handler/collectd-metrics/main.go and the message type of
-- pkg/collectd/collectd.go below it. Decoding JSON, the time type of collectd.org/cdtime and the
-- conversions of float64 are arguments.
use Prim.Native.Nat.{bit_xor}
use Prim.Native.String.{◌++◌}
use sg_core.Prelude.{
  ℕ, ◌+◌, Bool, true, false, ◌||◌, String, str_eq, List, [], ◌∷◌, Option, none, some, length, ◌==◌,
  if◌then◌else◌, ℤ, ◌*ℤ◌, wrap64, Outcome, returns, ◌>>=◌, index, inc64, ◌⊎◌, inl, inr,
}
use sg_core.Data.{Metric, MetricType, untyped, counter, gauge}
use sg_core.Handler.{Published, publish_metric, publish_event, error_event, own_metric, second}

-- A slice may be nil; `T` is cdtime.Time.
pub record CollectdMetric (F T : Type 0) : Type 0 where
  pub values : Option (List F)
  pub dstypes : Option (List String)
  pub dsnames : Option (List String)
  pub time : T
  pub interval : F
  pub host : String
  pub plugin : String
  pub plugin_instance : String
  pub type : String
  pub type_instance : String

-- A nil slice has no elements.
abbrev pub elements {ℓ} : {A : Type ℓ} → Option (List A) → List A
elements none = []
elements (some xs) = xs

abbrev pub is_nil {ℓ} : {A : Type ℓ} → Option (List A) → Bool
is_nil none = true
is_nil (some xs) = false

pub record Handler (F : Type 0) : Type 0 where
  pub total_metrics_decoded : ℕ
  pub total_messages_received : ℕ
  pub total_decode_errors : ℕ
  pub out : Published F

abbrev pub identify : String
identify = "collectd-metrics"

-- strToMetricType, where a missing type is UNTYPED.
unfoldable pub metric_type : String → MetricType
metric_type dstype =
    if str_eq dstype "counter"
    then counter
    else if str_eq dstype "absolute"
    then untyped
    else if str_eq dstype "derive"
    then counter
    else if str_eq dstype "gauge"
    then gauge
    else untyped

-- An instance that is not named.
unfoldable pub or_base : String → String
or_base instance_name = if str_eq instance_name "" then "base" else instance_name

module _ {F : Type 0} (float64 : ℕ → F) where
  -- A decode error is counted, and reported if the configuration says so.
  unfoldable pub decode_error : Bool → String → Handler F → Handler F
  unfolding error_event publish_event
  decode_error report_errors err c =
      let counted : Handler F = record c { total_decode_errors = inc64 c.total_decode_errors } in
      if report_errors
      then record counted {
        out =
            publish_event
              (error_event float64 identify err "failed to parse metric - disregarding"
                "internal smartgateway collectd-metrics handler error")
              c.out;
      }
      else counted

  -- What Run sends for each tick of its timer.
  unfoldable pub run_tick : Handler F → Handler F
  unfolding own_metric publish_metric
  run_tick c = record c {
    out =
        publish_metric
          (own_metric float64 "sg_total_collectd_msg_received_count" c.total_messages_received)
          (publish_metric
            (own_metric float64 "sg_total_collectd_metric_decode_error_count" c.total_decode_errors)
            (publish_metric
              (own_metric float64 "sg_total_collectd_metric_decode_count" c.total_metrics_decoded)
              c.out));
  }

module _ {F T : Type 0} where
  unfoldable pub validate_metric : CollectdMetric F T → Bool
  validate_metric cdmetric =
      if is_nil cdmetric.dsnames
        || is_nil cdmetric.dstypes
        || is_nil cdmetric.values
        || str_eq cdmetric.host ""
        || str_eq cdmetric.plugin ""
        || str_eq cdmetric.type ""
      then false
      else bit_xor
          (bit_xor (length (elements cdmetric.dsnames)) (length (elements cdmetric.dstypes)))
          (bit_xor (length (elements cdmetric.dsnames)) (length (elements cdmetric.values)))
        == 0

  -- genMetricName, with the data source's name and type at the index already read.
  unfoldable pub gen_metric_name : CollectdMetric F T → String → String → String
  gen_metric_name cdmetric dsname dstype =
      let name =
        if str_eq cdmetric.type cdmetric.plugin
        then "collectd_" ++ cdmetric.plugin
        else "collectd_" ++ (cdmetric.plugin ++ ("_" ++ cdmetric.type)) in
      let named = if str_eq dsname "value" then name else name ++ ("_" ++ dsname) in
      if str_eq dstype "counter" || str_eq dstype "derive" then named ++ "_total" else named

  module _ (float64 : ℕ → F) (to_float : T → F) (to_duration : F → ℤ) where
    -- The metric of one data source.
    unfoldable pub source_metric : CollectdMetric F T → String → String → F → Metric F
    unfolding gen_metric_name metric_type or_base
    source_metric cdmetric dsname dstype value = record {
      name = gen_metric_name cdmetric dsname dstype;
      time = to_float cdmetric.time;
      type = metric_type dstype;
      interval = wrap64 (to_duration cdmetric.interval *ℤ second);
      value = value;
      label_keys = "host" ∷ "plugin_instance" ∷ "type_instance" ∷ [];
      label_vals =
          cdmetric.host ∷ or_base cdmetric.plugin_instance ∷ or_base cdmetric.type_instance ∷ [];
    }

    -- The loop over cdmetric.Dsnames, from an index on, with the names left.
    unfoldable pub write_sources :
        CollectdMetric F T → ℕ → List String → Handler F → Outcome (Handler F)
    unfolding source_metric publish_metric
    write_sources cdmetric i [] c = returns c
    write_sources cdmetric i (dsname ∷ rest) c = index (elements cdmetric.dstypes) i >>= λ dstype.
        index (elements cdmetric.values) i >>= λ value.
        write_sources cdmetric (i + 1) rest (record c {
          out = publish_metric (source_metric cdmetric dsname dstype value) c.out;
          total_metrics_decoded = inc64 c.total_metrics_decoded;
        })

    -- writeMetrics: whether the metric was valid, and the handler after it.
    unfoldable pub write_metrics : CollectdMetric F T → Handler F → Outcome (Handler F × Bool)
    unfolding write_sources
    write_metrics cdmetric c =
        if validate_metric cdmetric
        then (write_sources cdmetric 0 (elements cdmetric.dsnames) c >>= λ c'. returns (c', true))
        else returns (c, false)

    -- The loop over the metrics of a message; the error of an invalid one has an empty text.
    unfoldable pub write_all : Bool → List (CollectdMetric F T) → Handler F → Outcome (Handler F)
    write_all report_errors [] c = returns c
    write_all report_errors (m ∷ ms) c = write_metrics m c >>= λ r.
        write_all report_errors ms (if r.1 then r.0 else decode_error float64 report_errors "" r.0)

    -- Handle, from what collectd.ParseInputByte made of the message: the error is always nil.
    unfoldable pub handle :
        (String ⊎ List (CollectdMetric F T)) → Bool → Handler F → Outcome (Handler F)
    unfolding write_all
    handle (inl err) report_errors c = returns (
        decode_error float64 report_errors err
          (record c { total_messages_received = inc64 c.total_messages_received }))
    handle (inr ms) report_errors c =
        write_all report_errors ms
          (record c { total_messages_received = inc64 c.total_messages_received })
