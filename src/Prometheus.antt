-- ===== src/Prometheus.antt =====
-- plugins/application/prometheus: the metrics cache that Prometheus scrapes, and its expiry.
pub mod Expiry
pub mod Collector
pub mod Tracking
pub mod Staleness
pub mod Collision
pub mod History
pub mod Application
pub mod Collectors
pub mod Emptied
pub mod Served
pub mod Tests
