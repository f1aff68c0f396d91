-- ===== src/State.antt =====
-- base/stateaggregate.go and base/stateevent.go: aggregates and events that hold a plain struct.
pub mod Fields
pub mod Decoders
pub mod Aggregates
