-- ===== src/Elasticsearch.antt =====
-- plugins/application/elasticsearch: events and logs as documents, in batches, and the client.
pub mod Documents
pub mod Buffer
pub mod Order
pub mod Counted
pub mod Interleaved
pub mod Client
pub mod Indices
pub mod Setup
pub mod Bulk
pub mod Tests
