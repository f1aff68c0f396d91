-- ===== src/Context.antt =====
-- base/context.go: the context in which a callback runs, and the transactions around it.
pub mod State
pub mod Streams
pub mod Replay
pub mod Run
