-- ===== src/Lib.antt =====
-- Verification library of evercore, an event store for Go with durable subscriptions.
--
-- The program has a storage engine, an event store over any engine, contexts in which a client
-- loads and changes aggregates, and two runners of subscriptions. The files follow these parts:
--   Base          shared names, tests on numbers and texts, lists, association lists with a Go
--                 map's lookups (Base/Dict), and what a call returns (Base/Outcome): a value, an
--                 error or a panic, with the state that it leaves on each of these paths;
--   Types         base/types.go and base/mapbuilders.go; Engine, the interface of
--                 base/storage.go; Aggregate, those of base/aggregate.go and base/context.go;
--   Memory        base/memory.go. State has the fields of MemoryStorageEngine; TypeIds, Aggregates,
--                 Events and Leases have its methods, named as there; Engine makes them a
--                 StorageEngine, and Valid its invariant. Two Go maps hold pointers to the same
--                 Subscription, so these are addresses into a heap;
--   Store         base/eventstore.go: the caches of type ids, SaveState, the aggregate calls and
--                 Warmup;
--   Context       base/context.go: the captured events and snapshots, the loading of streams, and
--                 their replay on an aggregate; Run has InContext, WithContext and their read-only
--                 forms of base/eventstore.go;
--   State         base/stateaggregate.go and base/stateevent.go: Fields for CopyFields, Decoders for
--                 the registry of event decoders, Aggregates for StateAggregate and StateEvent. A
--                 struct is its fields by name;
--   Subscriptions base/subscriptions.go: Setup for the defaults and type ids, Durable for
--                 RunSubscription and Ephemeral for RunEphemeralSubscription. Durable/Reader is
--                 what a runner's delivery asks of an engine, as a record of operations and laws,
--                 which Durable/Delivery gives for the in-memory engine and Sql/Delivery for SQL;
--                 Durable/Stops is about the end of a run and the lease that it gives up;
--   Sql           evercoresqlite: Errors for WrapError of engine.go; Queries, the statements that
--                 the engine sends, as a record of operations; Engine, the methods of engine.go and
--                 engine_subscriptions_raw.go over any such record; Tables, the statements of
--                 queries.sql.go and of the raw file as operations on lists of rows, and Database,
--                 tables with one transaction at a time; Valid, their constraints; Transactions,
--                 Leases, Keys, Reads and Delivery, theorems about the engine over them; Postgres, the
--                 methods in which evercorepostgres differs;
--   Uri           evercoreuri/uri.go: Connect, over the drivers and the migrations of
--                 Sql/Migrations, which is migrations.go of both engines;
--   Generator     cmd/evercoregen: Directives for directives.go and errors.go, Files for
--                 processor.go, Located what it enters, Project for shouldProcessFile and walkProject
--                 of utils.go, Output
--                 for GenerateCode of generate.go, getModuleName and what main does with them;
--   Tests         concrete stores and runs.
--
-- The store calls an engine through the record StorageEngine, a parameter of Store, Context and
-- Subscriptions; so a theorem about a runner over the in-memory engine is about the same runner as
-- over another engine. A runner's loop is a number of rounds: `ok` after n rounds says that it is
-- still running, an error that it has returned, and its theorems hold for every number. The clock,
-- cancellation, and what other processes write between rounds are an Environment.
--
-- int64 ids, sequences and durations are natural numbers: they start at 0 and only count up, and
-- no overflow is modelled. A time is its number of ticks since the Go zero time. Errors are
-- constructors, and `wrap` a message put before one, without the names printed into it. Map iteration order, reflection on types,
-- JSON, and in Context the decoder of serialized events are parameters. Mutexes, logging and context
-- values are left out.
--
-- A table is the list of its rows, a new id is one more than the greatest, and a statement that
-- would violate a UNIQUE constraint of the schema changes nothing. A query succeeds or fails as a
-- whole: an error while its rows are read is not modelled. Foreign keys are not enforced, as is SQLite's
-- default. A query without ORDER BY gives its rows in the order of their ids. Inside a transaction
-- the statements work on a copy of the tables; outside of an open one they fail, since a single
-- writer is modelled. The two readings of the clock in a claim are one.
--
-- The PostgreSQL engine is over the same record of statements; what its database does with them,
-- such as ending a transaction in which a statement has failed, is not modelled. Neither are the
-- build of either engine with the tag withsqlc, and the templates and the command line of the code
-- generator.
pub mod Base
pub mod Types
pub mod Engine
pub mod Aggregate
pub mod Memory
pub mod Store
pub mod Context
pub mod State
pub mod Sql
pub mod Uri
pub mod Generator
pub mod Subscriptions
pub mod Tests
