-- ===== src/Store.antt =====
-- base/eventstore.go: the event store over any storage engine.
pub mod State
pub mod Types
pub mod Aggregates
pub mod Warmup
