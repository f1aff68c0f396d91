-- ===== src/Tests/Loads.antt =====
-- A stream that is read after it was saved, and a warm-up of a store on the same tables.
use mathlib.Core.List.{Perm}
use evercore.Base.{List, [], ◌∷◌, ◌++◌, ◌≡◌, refl, none, some, nat_eq, string_eq}
use evercore.Base.Dict.{lookup, insert}
use evercore.Base.Outcome.{M, ok}
use evercore.Store.State.{EventStore}
use evercore.Store.Types as Store
use evercore.Context.State.{Context, publish}
use evercore.Context.Run.{with_context, run_in, finish}
use evercore.Sql.Engine.Interface.{sqlite_engine}
use evercore.Sql.Engine.Streams.{get_event_type_id, write_state, write_events, write_snapshots}
use evercore.Sql.Errors.{is_no_rows}
use evercore.Sql.Tables.Rows.{Tables}
use evercore.Sql.Tables.Streams.{
  add_name, add_event, add_event_type, id_of_name, get_event_type_id_by_name,
}
use evercore.Sql.Tables.Database.{
  Database, at_rest, in_transaction, connection, begin, commit, rollback,
}
use evercore.Sql.Transactions.Loads.{Ready, earlier_events, later_events}
use evercore.Sql.Transactions.Loads.Reads.{with_context-loads}
use evercore.Sql.Transactions.Leaks.{warmup_left_open}
use evercore.Store.Warmup.{warmup}
use evercore.Types.{map_name_to_id, SerializedEvent}
use evercore.Sql.Transactions.Loads.Ordered.{Ascends}
use evercore.Tests.{read_event}
use evercore.Tests.Databases.{shelves, on_disk}

-- An event of a new type at the next sequence of the first stream.
abbrev refunding : M (Context Database (Unit {0})) (Unit {0})
refunding = publish (record (read_event 0 1 3 50 "x" "r") { event_type = "refunded" })

abbrev refunding_begun : EventStore Database
refunding_begun = record on_disk { storage_engine = in_transaction shelves shelves }

abbrev refunded : EventStore Database
refunded = (with_context (sqlite_engine connection) (λ i. i) refunding on_disk).1

refunded_at_rest :
    with_context (sqlite_engine connection) (λ i. i) refunding on_disk ≡ (ok tt, refunded)
unfolding with_context finish begin commit rollback publish Store.save_state Store.save_loop
    Store.get_event_type_id Store.storage_event get_event_type_id get_event_type_id_by_name
    id_of_name add_event_type is_no_rows write_state write_events write_snapshots add_event lookup
    insert add_name
refunded_at_rest = refl

shelves-Ready : Ready shelves refunding_begun shelves
unfolding lookup
shelves-Ready = record { begun = refl; apart = ((refl, tt), (tt, tt)); cached = λ name id hit. cc }

with_context-loads_example :
    (t' : Tables) × (events : List SerializedEvent) × (refunded.storage_engine ≡ at_rest t')
    × ((sqlite_engine connection).get_events_for_aggregate none 1 1 refunded.storage_engine
        ≡ (ok events, at_rest t'))
    × Perm events (
        earlier_events t'.event_types 1 1 shelves.events
        ++ later_events (λ i. i) 1 1 (run_in (some tt) refunding refunding_begun).1.captured_events)
    × Ascends (λ e. e.sequence) events
unfolding publish
with_context-loads_example =
    with_context-loads shelves (λ i. i) refunding on_disk refunded shelves 1 1 refl shelves-Ready
      refl refunded_at_rest

warmup_left_open_example :
    warmup (sqlite_engine connection) ("order" ∷ []) ("paid" ∷ "placed" ∷ []) on_disk ≡ (
      ok tt,
      record {
        storage_engine = in_transaction shelves shelves;
        event_type_lookup = map_name_to_id shelves.event_types;
        aggregate_type_lookup = map_name_to_id shelves.aggregate_types;
      },
    )
warmup_left_open_example =
    warmup_left_open shelves on_disk ("order" ∷ []) ("paid" ∷ "placed" ∷ []) refl refl refl
      (refl, tt) (refl, (refl, tt))
