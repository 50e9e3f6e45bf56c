-- ===== src/Ceilometer.antt =====
-- plugins/handler/ceilometer-metrics: the metrics of ceilometer.
pub mod Message
pub mod Labels
pub mod Metrics
pub mod Filled
pub mod Written
pub mod Payload
pub mod Tests
