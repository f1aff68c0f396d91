-- ===== src/Tests/Databases.antt =====
-- Databases that hold the log, and runs of callbacks over them.
use evercore.Base.{◌≢◌, ℕ, String, ◌+◌, List, [], ◌∷◌, none, some, true, nat_eq, ◌≡◌, refl, arith}
use evercore.Base.Dict.{lookup, insert}
use evercore.Base.Outcome.{M, ok, err, wrap, storage, unique_violation}
use evercore.Types.{StorageEngineEvent, SerializedEvent}
use evercore.Memory.State.{Memory}
use evercore.Memory.Events.Pending.{pending_from}
use evercore.Store.State.{EventStore, new_event_store}
use evercore.Context.State.{Context, publish}
use evercore.Context.Run.{with_context, run_in, finish}
use evercore.Sql.Engine.Subscriptions as Sql
use evercore.Sql.Engine.Interface.{sqlite_engine}
use evercore.Sql.Tables.Rows.{Tables, AggregateRow, EventRow, no_tables}
use evercore.Sql.Tables.Streams.{
  name_of_id, id_of_name, add_event, add_event_type, get_event_type_id_by_name,
}
use evercore.Sql.Tables.Subscriptions.{aggregate_of}
use evercore.Sql.Tables.Database.{
  Database, at_rest, in_transaction, connection, queries, begin, commit, rollback,
}
use evercore.Sql.Transactions.Appends.{Stamped, Appended, with_context-appends}
use evercore.Sql.Transactions.Conflicts.{with_context-conflict}
use evercore.Sql.Transactions.Stale.{with_context-stale}
use evercore.Sql.Engine.Streams.{get_event_type_id, write_state, write_events, write_snapshots}
use evercore.Sql.Errors.{is_no_rows}
use evercore.Store.Types as Store
use evercore.Sql.Transactions.Atomic.{Atomic, with_context-Atomic}
use evercore.Sql.Reads.{Represents, Known, row_of}
use evercore.Sql.Reads.Refinement.{get_events_for_subscription-pending_sql}
use evercore.Tests.{shop, log, placed, read_event}

abbrev order : ℕ → AggregateRow
order i = record { id = i; aggregate_type_id = 1; natural_key = none }

-- The rows of a log, with ids from the given one on.
abbrev rows_from : ℕ → List StorageEngineEvent → List EventRow
rows_from id [] = []
rows_from id (e ∷ es) = row_of id e ∷ rows_from (id + 1) es

-- The tables of the shop, with the aggregates that its log is about.
abbrev pub shelves : Tables
shelves = record no_tables {
  aggregate_types = record { id = 1; name = "order" } ∷ [];
  event_types = record { id = 1; name = "placed" } ∷ record { id = 2; name = "paid" } ∷ [];
  aggregates = order 1 ∷ order 2 ∷ [];
  events = rows_from 1 log;
  subscriptions = placed ∷ [];
  subscription_event_types = (1, 1) ∷ [];
}

abbrev stocked : Memory
stocked = record shop {
  aggregate_to_type_id = (1, 1) ∷ (2, 1) ∷ [];
  aggregate_inv = (1, none) ∷ (2, none) ∷ [];
  subscription_event_types = (1, (1, true) ∷ []) ∷ [];
}

order-Known :
    (i : ℕ) (e : StorageEngineEvent) (event_type : String)
    → aggregate_of shelves e.aggregate_id ≡ some (order i)
    → lookup e.aggregate_id stocked.aggregate_to_type_id ≡ some 1
    → lookup e.aggregate_id stocked.aggregate_inv ≡ some none
    → name_of_id e.event_type_id shelves.event_types ≡ some event_type
    → lookup e.event_type_id stocked.event_types_inv ≡ some event_type
    → Known shelves stocked e
unfolding name_of_id
order-Known i e event_type found typed keyed named same = record {
  row = order i;
  found = found;
  typed = typed;
  keyed = keyed;
  aggregate_type = "order";
  aggregate_type_named = refl;
  event_type = event_type;
  event_type_named = named;
  same_name = same;
}

shelves-stocked : Represents shelves stocked
unfolding lookup name_of_id
shelves-stocked = record {
  logged = (refl, (refl, (refl, (refl, tt))));
  known = (
    order-Known 1 _ "placed" refl refl refl refl refl,
    (
      order-Known 2 _ "placed" refl refl refl refl refl,
      (
        order-Known 1 _ "paid" refl refl refl refl refl,
        (order-Known 2 _ "placed" refl refl refl refl refl, tt),
      ),
    ),
  );
  multi = λ id. ground arith;
  among = λ id type_id. ground arith;
}

get_events_for_subscription-pending_sql_example :
    Sql.get_events_for_subscription (queries none) placed 2 (at_rest shelves)
    ≡ (ok (read_event 1 1 1 10 "a" "" ∷ read_event 2 2 1 20 "b" "" ∷ []), at_rest shelves)
unfolding pending_from lookup
get_events_for_subscription-pending_sql_example =
    get_events_for_subscription-pending_sql shelves stocked shelves-stocked placed 2

abbrev pub on_disk : EventStore Database
on_disk = new_event_store (at_rest shelves)

abbrev placing : M (Context Database (Unit {0})) (Unit {0})
placing = publish (read_event 0 1 3 50 "x" "r")

-- The same event at a sequence that is taken, and one of a new type there.
abbrev placing_again : M (Context Database (Unit {0})) (Unit {0})
placing_again = publish (read_event 0 1 2 50 "x" "r")

abbrev refund : SerializedEvent
refund = record (read_event 0 1 2 50 "x" "r") { event_type = "refunded" }

abbrev begun : EventStore Database
begun = record on_disk { storage_engine = in_transaction shelves shelves }

with_context-Atomic_example :
    Atomic
      (λ i. i)
      shelves
      (run_in (some tt) placing begun)
      (with_context (sqlite_engine connection) (λ i. i) placing on_disk)
unfolding publish
with_context-Atomic_example =
    with_context-Atomic (λ i. i) shelves placing on_disk refl (shelves, refl, tt)

-- The store that the run leaves.
abbrev placed_on_disk : EventStore Database
placed_on_disk = (with_context (sqlite_engine connection) (λ i. i) placing on_disk).1

placed_at_rest :
    with_context (sqlite_engine connection) (λ i. i) placing on_disk ≡ (ok tt, placed_on_disk)
unfolding with_context finish begin commit rollback publish Store.save_state Store.save_loop
    Store.get_event_type_id Store.storage_event get_event_type_id get_event_type_id_by_name
    id_of_name add_event_type is_no_rows write_state write_events write_snapshots add_event lookup
    insert
placed_at_rest = refl

with_context-appends_example :
    (t' : Tables) × (rs : List StorageEngineEvent) × (placed_on_disk.storage_engine ≡ at_rest t')
    × Stamped (λ i. i) (run_in (some tt) placing begun).1.captured_events rs
    × Appended shelves.events rs t'.events
unfolding publish
with_context-appends_example =
    with_context-appends shelves (λ i. i) placing on_disk placed_on_disk refl (shelves, refl, refl)
      placed_at_rest

with_context-conflict_example :
    let r = with_context (sqlite_engine connection) (λ i. i) placing_again on_disk in
    (r.0 ≢ ok tt) × (r.1.storage_engine ≡ at_rest shelves)
unfolding publish
with_context-conflict_example =
    with_context-conflict shelves (λ i. i) placing_again on_disk [] (read_event 0 1 2 50 "x" "r") []
      refl (shelves, refl, refl) refl refl

with_context-stale_example :
    (with_context (sqlite_engine connection) (λ i. i) (publish refund) on_disk ≡ (
      err (
          wrap "failed to save state in WithContext" (
            storage "failed to add event" "constraint_violation"
              (unique_violation "events.aggregate_id, events.sequence"))),
      record on_disk { event_type_lookup = ("refunded", 3) ∷ [] },
    ))
    × ((get_event_type_id (queries none) "shipped" (at_rest shelves)).0 ≡ ok 3)
unfolding lookup insert id_of_name
with_context-stale_example =
    with_context-stale shelves (λ i. i) on_disk refund "shipped" refl refl refl refl refl
