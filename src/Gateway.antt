-- ===== src/Gateway.antt =====
-- The parts put together: applications as receivers of a bus, and messages on their way from a transport or a
-- handler to an application.
pub mod Receiver
pub mod Prometheus
pub mod Elasticsearch
pub mod Scraped
pub mod Latest
pub mod Stream
pub mod Events
pub mod Tests
