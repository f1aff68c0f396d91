-- ===== src/Tests/Deliveries.antt =====
-- A durable runner over the shop's tables.
use evercore.Base.{[], ◌∷◌, false, refl, ◌≡◌, arith}
use evercore.Base.Outcome.{ok}
use evercore.Types.{Subscription}
use evercore.Store.State.{EventStore}
use evercore.Subscriptions.Setup.{Environment, Options}
use evercore.Subscriptions.Durable.{rounds}
use evercore.Subscriptions.Durable.Reader.{IsQuiet, record_events}
use evercore.Sql.Engine.Interface.{sqlite_engine}
use evercore.Sql.Engine.Subscriptions.{
  conditions, type_condition, key_condition, event_type_condition,
}
use evercore.Sql.Tables.Streams.{name_of_id}
use evercore.Sql.Tables.Subscriptions.{
  event_log, meets_all, meets, event_log_row, aggregate_type_of,
}
use evercore.Sql.Tables.Database.{Database, connection}
use evercore.Sql.Delivery.{pending, Owns, after}
use evercore.Sql.Delivery.Runs.{rounds-deliver_sql}
use evercore.Tests.{placed, read_event}
use evercore.Tests.Databases.{shelves, on_disk}

abbrev still : Environment Database
still = record {
  claimed_at = 0;
  now = λ i. i;
  is_done = λ i. false;
  is_done_waiting = λ i. false;
  others = λ i s. s;
  host_owner = "h-1";
}

still-IsQuiet : IsQuiet still
still-IsQuiet = record {
  not_done = λ i. refl;
  not_done_waiting = λ i. refl;
  no_others = λ i s. refl;
}

abbrev pairs : Options
pairs = record { batch_size = 2; poll_interval = 5; lease = 100; owner = "w1" }

placed-Owns : Owns "placed" "w1" on_disk.storage_engine placed
placed-Owns = record {
  tables = shelves;
  rests = refl;
  valid = (
    ((refl, (refl, (refl, tt))), ((refl, (refl, tt)), ((refl, tt), (tt, tt)))),
    (omega arith, (omega arith, (omega arith, (omega arith, tt)))),
    ((refl, (refl, (refl, tt))), ((refl, (refl, tt)), ((refl, tt), (tt, tt)))),
  );
  found = refl;
  active = refl;
  owned = refl;
}

rounds-deliver_sql_example :
    (s' : EventStore Database) × (sub' : Subscription) × (rounds
        (sqlite_engine connection)
        still
        "placed"
        pairs
        record_events
        1
        0
        (on_disk, [])
      ≡ (ok tt, (s', read_event 1 1 1 10 "a" "" ∷ read_event 2 2 1 20 "b" "" ∷ [])))
    × Owns "placed" "w1" s'.storage_engine sub'
    × (pending s'.storage_engine sub' ≡ read_event 4 2 2 40 "d" "" ∷ [])
unfolding after event_log meets_all meets event_log_row aggregate_type_of name_of_id conditions
    type_condition key_condition event_type_condition
rounds-deliver_sql_example =
    rounds-deliver_sql still "placed" pairs 1 1 0 on_disk placed [] still-IsQuiet refl placed-Owns
