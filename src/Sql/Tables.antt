-- ===== src/Sql/Tables.antt =====
-- The tables of evercoresqlite/sql/migrations and the statements of evercoresqlite/queries.sql.go
-- as operations on them. A table is the list of its rows in the order of their ids; a new id is one
-- more than the greatest. A statement that would violate a UNIQUE constraint changes nothing.
pub mod Rows
pub mod Streams
pub mod Subscriptions
pub mod Database
