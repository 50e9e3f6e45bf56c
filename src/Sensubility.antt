-- ===== src/Sensubility.antt =====
-- plugins/handler/sensubility-metrics: the health of containers as metrics.
pub mod Message
pub mod Metrics
pub mod Missing
pub mod Handled
pub mod Tests
