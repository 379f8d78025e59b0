-- ===== src/Tests.antt =====
-- The theorems at concrete inputs, by part of the program.
pub mod Metrics
pub mod Paths
pub mod Aggregates
pub mod Utilities
pub mod Messages
pub mod Objects
pub mod Stores
pub mod Transactions
pub mod Samples
pub mod Handlers
pub mod Spans
pub mod Published
pub mod Kafka
pub mod Journals
pub mod Otels
