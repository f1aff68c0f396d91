-- ===== src/Sql/Transactions/Leaks.antt =====
-- `Warmup` over a SQL engine where there is nothing to add.
use evercore.Base.{String, true, List, [], ◌≡◌, refl, nat_eq, string_eq, All}
use evercore.Base.Outcome.{ok}
use evercore.Types.{map_name_to_id}
use evercore.Sql.Tables.Rows.{Tables}
use evercore.Sql.Tables.Streams.{get_event_types, get_aggregate_types}
use evercore.Sql.Tables.Database.{Database, at_rest, in_transaction, connection, begin}
use evercore.Sql.Engine.Streams as Engine
use evercore.Sql.Engine.Interface.{sqlite_engine}
use evercore.Store.State.{EventStore}
use evercore.Store.Warmup.{warmup}
use evercore.Store.Warmup.Known.{has_name, warmup_known}

-- Over a SQL database at rest, Warmup of a store whose caches are empty, with names of types that
-- all are in the tables, succeeds and fills both caches from the tables, but leaves the
-- transaction that it began open: it is neither committed nor rolled back.
pub warmup_left_open :
    (t : Tables) (s : EventStore Database) (aggregate_types event_types : List String)
    → s.storage_engine ≡ at_rest t
    → s.event_type_lookup ≡ []
    → s.aggregate_type_lookup ≡ []
    → All (λ n. has_name t.aggregate_types n ≡ true) aggregate_types
    → All (λ n. has_name t.event_types n ≡ true) event_types
    → warmup (sqlite_engine connection) aggregate_types event_types s ≡ (
      ok tt,
      record {
        storage_engine = in_transaction t t;
        event_type_lookup = map_name_to_id t.event_types;
        aggregate_type_lookup = map_name_to_id t.aggregate_types;
      },
    )
unfolding warmup begin Engine.get_event_types Engine.get_aggregate_types get_event_types
    get_aggregate_types
warmup_left_open t s aggregate_types event_types at no_events no_aggregates aggregates events =
    warmup_known (sqlite_engine connection) tt t.event_types t.aggregate_types s
      (in_transaction t t) (in_transaction t t) (in_transaction t t) aggregate_types event_types
      (rw at refl) refl refl no_events no_aggregates aggregates events
