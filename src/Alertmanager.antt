-- ===== src/Alertmanager.antt =====
-- plugins/application/alertmanager: alerts for Prometheus' alert manager from the events of the bus.
pub mod Alert
pub mod Generate
pub mod Keys
pub mod Name
pub mod Summary
pub mod Tests
