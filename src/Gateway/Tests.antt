-- ===== src/Gateway/Tests.antt =====
-- Messages of collectd on their way to Prometheus and to Elasticsearch.
use sg_core.Prelude.{
  ◌⊎◌, Bool, Option, inr, length, ◌==◌, if◌then◌else◌, lookup, map, false, ◌++◌, inl, ℕ, ◌≡◌, refl,
  true, String, List, [], ◌∷◌, some, pos, arith,
}
use sg_core.Data.{Metric}
use sg_core.Collectd.Metrics.{
  CollectdMetric, Handler, handle, write_metrics, validate_metric, source_metric,
}
use sg_core.Collectd.Metrics.{decode_error}
use sg_core.Socket.Frame.{Bytes, write_tcp_msg}
use sg_core.Socket.Stream.{encode, frame, le_bytes}
use sg_core.Socket.Receive.{receive_data, on_read, on_chunk}
use sg_core.Socket.Tests.{fresh, hello, bang, cut_stream, tcp_conf}
use sg_core.Data.{MetricType}
use sg_core.Prometheus.Collector.{Desc}
use sg_core.Gateway.Latest.{ScrapedLast}
use sg_core.Gateway.Stream.{handle_blobs, receive_data-Scraped}
use sg_core.Bus.Deliveries.{EventBus, run_goroutine, publish}
use sg_core.Prometheus.Application.{new_prometheus, load}
use sg_core.Gateway.Receiver.{Act, publishes, delivers, act_all, calls}
use sg_core.Gateway.Prometheus.{prometheus_receiver}
use sg_core.Data.{Event, critical}
use sg_core.Events.Collectd.{sanitize, collectd_event_handler, message_event}
use sg_core.Events.Parsed.{events_of}
use sg_core.Events.Tests.{collectd_packages, alert, nothing}
use sg_core.Elasticsearch.Buffer.{Elasticsearch, is_buffered, new_elasticsearch}
use sg_core.Elasticsearch.Documents.{default_config}
use sg_core.Elasticsearch.Tests.{encoders}
use sg_core.Gateway.Elasticsearch.{has_document, elasticsearch_receiver}
use sg_core.Gateway.Events.{collectd_event_handler-has_document}
use sg_core.Events.Collectd.{
  parse_sanitized, parse_messages, severity_of, publish_events, collectd_alert_severity,
}
use sg_core.Handler.{publish_event}

abbrev to_number : ℕ → ℕ
to_number n = n

abbrev quiet : Handler ℕ
quiet = record {
  total_metrics_decoded = 0;
  total_messages_received = 0;
  total_decode_errors = 0;
  out = record { metrics = []; events = [] };
}

abbrev traffic : CollectdMetric ℕ ℕ
traffic = record {
  values = some (10 ∷ 20 ∷ []);
  dstypes = some ("derive" ∷ "derive" ∷ []);
  dsnames = some ("rx" ∷ "tx" ∷ []);
  time = 7;
  interval = 10;
  host = "node";
  plugin = "interface";
  plugin_instance = "eth0";
  type = "if_octets";
  type_instance = "";
}

abbrev traffic_metric : String → String → ℕ → Metric ℕ
traffic_metric source dstype value =
    source_metric to_number to_number pos traffic source dstype value

abbrev received : Metric ℕ
received = traffic_metric "rx" "derive" 10

abbrev transmitted : Metric ℕ
transmitted = traffic_metric "tx" "derive" 20

-- The second metric is published while the first waits, and overtakes it.
abbrev acts : List (Act (Metric ℕ))
acts = publishes received ∷ publishes transmitted ∷ delivers 1 ∷ delivers 0 ∷ []

abbrev bus : EventBus (Metric ℕ)
bus = record { subscribers = 4 ∷ []; pending = []; delivered = [] }

abbrev clock : ℕ → ℕ
clock i = i

abbrev buffering : Elasticsearch
unfolding new_elasticsearch default_config
buffering = new_elasticsearch (record default_config { buffer_size = pos 2 })

abbrev alerts : List (Event ℕ)
alerts = events_of (collectd_packages false) (alert ∷ [])

abbrev alert_acts : List (Act (Event ℕ))
alert_acts = map publishes alerts ++ delivers 0 ∷ []

abbrev event_bus : EventBus (Event ℕ)
event_bus = record { subscribers = 1 ∷ []; pending = []; delivered = [] }

abbrev alert_event : Event ℕ
alert_event = message_event (collectd_packages false) alert critical

collectd_event_handler-has_document_example :
    has_document encoders alert_event (
      calls
        (elasticsearch_receiver encoders)
        1
        clock
        0
        (act_all alert_acts event_bus).delivered
        buffering)
    ≡ true
unfolding sanitize collectd_event_handler act_all run_goroutine publish is_buffered buffering
    parse_sanitized parse_messages severity_of publish_events publish_event collectd_alert_severity
    lookup
collectd_event_handler-has_document_example =
    collectd_event_handler-has_document (collectd_packages false) encoders 1 "ves" "\"ves\":{ves}"
      (alert ∷ []) nothing alert_acts event_bus 1 clock buffering [] alert_event [] refl refl
      (tt, tt) refl refl refl refl (inl refl)

-- A message of two bytes is the traffic, and no other message decodes.
abbrev parse_input : Bytes → String ⊎ List (CollectdMetric ℕ ℕ)
parse_input blob = if length blob == 2 then inr (traffic ∷ []) else inl "no JSON"

abbrev as_sample : Desc → MetricType → ℕ → List String → Option ℕ
as_sample d type value labels = some value

abbrev with_time : ℕ → ℕ → ℕ
with_time time s = s

abbrev is_zero : ℕ → Bool
is_zero n = n == 0

receive_data-Scraped_example :
    ScrapedLast as_sample with_time is_zero 4 received
      (act_all acts bus).delivered
      (calls prometheus_receiver 4 clock 0 (act_all acts bus).delivered new_prometheus)
unfolding encode frame le_bytes receive_data on_read on_chunk write_tcp_msg handle_blobs handle
    write_metrics validate_metric decode_error act_all run_goroutine publish new_prometheus load
receive_data-Scraped_example =
    receive_data-Scraped to_number to_number pos parse_input true tcp_conf cut_stream fresh hello
      (bang ∷ []) quiet acts bus 4 clock new_prometheus [] received (transmitted ∷ []) as_sample
      with_time is_zero refl (omega arith) (omega arith) (omega arith) refl refl refl (omega arith)
      refl refl refl refl (λ d. refl)
