-- ===== src/Subscriptions.antt =====
-- base/subscriptions.go: durable and ephemeral subscriptions over any storage engine.
pub mod Setup
pub mod Durable
pub mod Ephemeral
