-- ===== src/Sql/Tables/Database.antt =====
-- A database of these tables with one transaction at a time. A statement of the transaction works
-- on its own copy of the tables, which `Commit` puts in place of the committed ones; once the
-- transaction has ended its handle is refused. While it is open, a statement outside of it finds
-- the database locked.
use evercore.Base.{Option, none, some}
use evercore.Base.Outcome.{M, ok, err, tx_done, external}
use evercore.Sql.Queries.{Queries, Connection}
use evercore.Sql.Tables.Rows.{Tables}
use evercore.Sql.Tables.Streams as Streams
use evercore.Sql.Tables.Subscriptions as Subscriptions

pub record Database : Type 0 where
  pub committed : Tables
  pub pending : Option Tables

abbrev pub at_rest : Tables → Database
at_rest t = record { committed = t; pending = none }

abbrev pub in_transaction : Tables → Tables → Database
in_transaction t t' = record { committed = t; pending = some t' }

-- A statement inside the transaction, and one outside of it.
abbrev pub statement : {A : Type 0} → Option (Unit {0}) → M Tables A → M Database A
statement (some tx) m db = elim db.pending [
  | none ↦ (err tx_done, db)
  | some t ↦ let r = m t in (r.0, record db { pending = some r.1 })
]
statement none m db = elim db.pending [
  | none ↦ let r = m db.committed in (r.0, record db { committed = r.1 })
  | some t ↦ (err (external "database is locked"), db)
]

unfoldable pub begin : M Database (Unit {0})
begin db = elim db.pending [
  | none ↦ (ok tt, record db { pending = some db.committed })
  | some t ↦ (err (external "database is locked"), db)
]

unfoldable pub commit : Unit {0} → M Database (Unit {0})
commit tx db = elim db.pending [ none ↦ (err tx_done, db) | some t ↦ (ok tt, at_rest t) ]

unfoldable pub rollback : Unit {0} → M Database (Unit {0})
rollback tx db = elim db.pending [
  | none ↦ (err tx_done, db)
  | some t ↦ (ok tt, at_rest db.committed)
]

abbrev pub queries : Option (Unit {0}) → Queries Database
queries tx = record {
  add_aggregate_type = λ n. statement tx (Streams.add_aggregate_type n);
  get_aggregate_types = statement tx Streams.get_aggregate_types;
  get_aggregate_type_id_by_name = λ n. statement tx (Streams.get_aggregate_type_id_by_name n);
  add_event_type = λ n. statement tx (Streams.add_event_type n);
  get_event_types = statement tx Streams.get_event_types;
  get_event_type_id_by_name = λ n. statement tx (Streams.get_event_type_id_by_name n);
  add_aggregate = λ a. statement tx (Streams.add_aggregate a);
  add_aggregate_with_natural_key = λ a k. statement tx (Streams.add_aggregate_with_natural_key a k);
  get_aggregate_id_by_natural_key =
      λ a k. statement tx (Streams.get_aggregate_id_by_natural_key a k);
  get_aggregate_by_id = λ a i. statement tx (Streams.get_aggregate_by_id a i);
  change_aggregate_natural_key = λ k i. statement tx (Streams.change_aggregate_natural_key k i);
  add_event = λ e. statement tx (Streams.add_event e);
  get_events_for_aggregate = λ i n. statement tx (Streams.get_events_for_aggregate i n);
  add_snapshot = λ s. statement tx (Streams.add_snapshot s);
  get_most_recent_snapshot = λ i. statement tx (Streams.get_most_recent_snapshot i);
  upsert_subscription =
      λ n a e k f i ts. statement tx (Subscriptions.upsert_subscription n a e k f i ts);
  select_subscription_id = λ n. statement tx (Subscriptions.select_subscription_id n);
  insert_subscription_event_type =
      λ s e. statement tx (Subscriptions.insert_subscription_event_type s e);
  select_subscription = λ n. statement tx (Subscriptions.select_subscription n);
  update_active = λ b i. statement tx (Subscriptions.update_active b i);
  update_lease_if_free = λ o u n now. statement tx (Subscriptions.update_lease_if_free o u n now);
  update_lease_of = λ u n o. statement tx (Subscriptions.update_lease_of u n o);
  clear_lease_of = λ n o. statement tx (Subscriptions.clear_lease_of n o);
  select_event_type_of = λ i. statement tx (Subscriptions.select_event_type_of i);
  select_events = λ i cs n. statement tx (Subscriptions.select_events i cs n);
  update_cursor = λ c i. statement tx (Subscriptions.update_cursor c i);
  select_max_event_id = statement tx Subscriptions.select_max_event_id;
  select_first_event_from = λ ts. statement tx (Subscriptions.select_first_event_from ts);
}

abbrev pub connection : Connection Database (Unit {0})
connection = record { begin = begin; commit = commit; rollback = rollback; new = queries }
