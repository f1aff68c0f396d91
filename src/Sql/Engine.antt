-- ===== src/Sql/Engine.antt =====
-- evercoresqlite/engine.go and evercoresqlite/engine_subscriptions_raw.go, over any connection. A
-- method starts with `New(s.maybeWrapTx(tx))`; `queries` is the result.
pub mod Streams
pub mod Subscriptions
pub mod Interface
