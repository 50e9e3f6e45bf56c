-- ===== src/Lib.antt =====
-- sg-core, the Smart Gateway: transports receive messages, the handlers of a transport decode them and
-- publish metrics and events on two buses, and the applications on the buses store them. This library
-- models the logic of these parts, file by file of the repository, and proves what makes each correct.
--
-- Prelude      Names, tests into Bool, lists, 64-bit integers, maps as association lists, texts (strings
--              strconv and sort of Go), and Outcome, the result of Go code that may panic.
-- Data         pkg/data/data.go: Metric, Event and their enumerations with the String tables. A float64
--              is a value of a type parameter F; what code does with it is an argument.
-- Handler      MetricPublishFunc and EventPublishFunc of pkg/bus/bus.go as a handler sees them: Published
--              lists what has been published, in order. own_metric is a metric sent by a handler's Run.
-- Socket       plugins/transport/socket/main.go. Frame, Receive: WriteTCPMsg (write_tcp_msg, its loop
--              write_loop with one turn next_frame) and ReceiveData (receive_data, one turn on_read,
--              on_chunk), on lists of bytes. A connection is the list of chunks that its reads return.
--              Setup: Config, and the receive loops that Run starts.
-- Amqp         plugins/transport/amqp1/main.go: the messages and the loop of Run, Config.
-- Prometheus   plugins/application/prometheus/main.go and expiry.go. Expiry: the expiry process; Collector:
--              UpdateMetrics, Collect, and check with the metrics' own Expired and Delete; Application:
--              ReceiveMetric on the maps of collectors and of expiry processes, and the checks of these;
--              History and Served: any sequence of these steps, for a collector and for the plugin.
-- Collectd     plugins/handler/collectd-metrics/main.go and pkg/collectd/collectd.go: Handle, writeMetrics,
--              validateMetric, Run.
-- Ceilometer   plugins/handler/ceilometer-metrics/main.go and pkg/ceilometer/ceilometer.go. Message: both
--              parsers and the schema kept between messages; Labels: genLabels on arrays with an index;
--              Metrics: Handle, Run, New and Config.
-- Sensubility  plugins/handler/sensubility-metrics/main.go and pkg/sensu/sensu.go: Handle, Run, Config.
-- Logs         plugins/handler/logs/main.go and pkg/lib: the severity of a log, parse, Handle, Run, Config.
-- Events       plugins/handler/events. Source: pkg/lib/source.go, which source a message is recognized as;
--              Time: EpochFromFormat of pkg/lib/time.go; Ceilometer and Collectd: ceilometer/ceilometer.go
--              and collectd/collectd.go with their functions of handlers/handlers.go; Dispatch: main.go.
-- Elasticsearch plugins/application/elasticsearch/main.go and pkg/lib/config.go: the documents of events,
--              ReceiveEvent with its buffer and the channel of batches, a tick of the flusher, a worker,
--              and (Interleaved) these in any order; Setup: Config and the start of Run; Client:
--              pkg/lib/client.go, with the server's state and its answers as arguments.
-- Alertmanager plugins/application/alertmanager. Alert: pkg/lib/alert.go; Name: its SetName, on labels and on
--              the quotient that forgets their order; Generate: pkg/lib/generators.go and main.go.
-- Loki, Print  plugins/application/loki/main.go with pkg/lib/loki.go, and plugins/application/print/main.go.
-- Bus          pkg/bus/bus.go: subscribers and the deliveries that the goroutines of a publication make.
-- Config       pkg/config/config.go: ParseConfig and setCamelCase.
-- Manager      cmd/manager/manager.go, cmd/main.go and cmd/config.go: what loads the plugins of a
--              configuration and the goroutines that are started; Main: main, from its logger and the file
--              of its configuration to these goroutines. A transport, a handler and an application are
--              values of type parameters.
-- Dummy        plugins/transport/dummy-*: the messages that make a load for tests, and what their Run writes.
-- Transport    pkg/transport/transport.go: the modes of transports.
-- Gateway      The parts together. Receiver: MetricReceiver and EventReceiver of
--              pkg/application/application.go as an interface, a record of what a call does, which messages
--              are held and laws for these, and any sequence of publications and goroutines of a bus with
--              one subscriber that has this interface; Prometheus, Elasticsearch: its instances; Scraped and
--              Latest: what a scrape of Prometheus shows, and of which metric; Stream: metrics of collectd from a TCP stream to a
--              scrape of Prometheus; Events: alerts of collectd from their handler to Elasticsearch.
--
-- A handler's state is a record with the fields of its Go struct and what it has published; Handle is a
-- function of the message and the state. Where Go may panic (an index, a slice, an assertion) the result
-- is an Outcome. Counters wrap at 64 bits.
--
-- Bounds and fuel: the loop of WriteTCPMsg runs on fuel, one turn for each byte of the buffer and one,
-- which suffices because each turn that goes on moves by eight bytes at least. The loop of decimal runs
-- on the number as fuel. The loop of sanitize for collectd events has fuel as an argument, since it need
-- not end: one round for each size that its texts can have and one suffices where those that keep nested
-- quotes are valid and get shorter. All other loops follow a list.
--
-- Arguments of the definitions stand for packages that are not in the repository: decoding and encoding
-- JSON, message pack and YAML, regular expressions, the parsing of times, float64 and the Prometheus
-- client, and the validator of configurations. Not modelled: the system calls that open and accept
-- connections, the AMQP client, HTTP servers and clients, TLS, the loading of binaries, flags and signals,
-- which are calls of such packages, and the logs. Most Config functions take the decoder of their
-- configuration as an argument, which ParseConfig is made of. pkg/lib/time.go is a copy of the
-- EpochFromFormat that Events models, and the interfaces of pkg/handler have no operations of their own.
-- Locks are not modelled: an operation under a lock is one step. ReceiveMetric and a check of an expiry
-- process are whole steps too, although they hold different locks, so that an overlap of the two, in which a
-- check deletes a collector that waits for its first metric, is not among the histories. The calls of the
-- Prometheus registry are recorded; what the library keeps after them is not modelled: it does not
-- unregister a collector that was registered without metrics.
pub mod Prelude
pub mod Data
pub mod Handler
pub mod Collectd
pub mod Alertmanager
pub mod Amqp
pub mod Loki
pub mod Print
pub mod Gateway
pub mod Bus
pub mod Config
pub mod Transport
pub mod Dummy
pub mod Ceilometer
pub mod Events
pub mod Logs
pub mod Sensubility
pub mod Socket
pub mod Elasticsearch
pub mod Prometheus
pub mod Manager
