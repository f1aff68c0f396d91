-- ===== src/Memory.antt =====
-- base/memory.go, the in-memory storage engine: its state, its operations by area, and below
-- each area what is proved of it.
pub mod State
pub mod TypeIds
pub mod Aggregates
pub mod Events
pub mod Leases
pub mod Engine
pub mod Frames
pub mod Valid
