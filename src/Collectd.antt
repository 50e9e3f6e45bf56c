-- ===== src/Collectd.antt =====
-- plugins/handler/collectd-metrics: collectd metrics from JSON.
pub mod Metrics
pub mod Valid
pub mod Messages
pub mod Tests
