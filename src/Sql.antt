-- ===== src/Sql.antt =====
-- The SQL storage engines: evercoresqlite and evercorepostgres, over the queries that they send.
pub mod Errors
pub mod Queries
pub mod Migrations
pub mod Engine
pub mod Tables
pub mod Transactions
pub mod Reads
pub mod Delivery
pub mod Keys
pub mod Valid
pub mod Leases
pub mod Postgres
