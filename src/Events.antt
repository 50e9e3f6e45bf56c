-- ===== src/Events.antt =====
-- plugins/handler/events: the events of ceilometer and collectd.
pub mod Time
pub mod Source
pub mod Recognized
pub mod Ceilometer
pub mod Traits
pub mod Names
pub mod Collectd
pub mod Sanitize
pub mod Parsed
pub mod Dispatch
pub mod Handled
pub mod Tests
