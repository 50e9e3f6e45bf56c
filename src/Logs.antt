-- ===== src/Logs.antt =====
-- plugins/handler/logs: log messages as events.
pub mod Severity
pub mod Messages
pub mod Accepted
pub mod Tests
