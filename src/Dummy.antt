-- ===== src/Dummy.antt =====
-- The transports that make a load for tests: plugins/transport/dummy-*.
pub mod Messages
pub mod Load
pub mod Alertmanager
pub mod Generated
pub mod Tests
