-- ===== src/Bus.antt =====
-- pkg/bus/bus.go: publishers and subscribers of events and metrics.
pub mod Deliveries
pub mod Complete
pub mod Tests
