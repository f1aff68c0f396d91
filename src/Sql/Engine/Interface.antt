-- ===== src/Sql/Engine/Interface.antt =====
-- `SqliteStorageEngine` as a `StorageEngine`: every method but the transactions works on the
-- queries of its transaction, or on those of the connection for a nil one.
use evercore.Base.{none}
use evercore.Engine.{StorageEngine}
use evercore.Sql.Errors.{storing}
use evercore.Sql.Queries.{Connection}
use evercore.Sql.Engine.Streams
use evercore.Sql.Engine.Subscriptions

abbrev pub sqlite_engine : {D Tx : Type 0} → Connection D Tx → StorageEngine D Tx
sqlite_engine db = record {
  get_max_key_length = Streams.max_key_length;
  get_event_type_id = λ tx. Streams.get_event_type_id (db.new tx);
  get_aggregate_type_id = λ tx. Streams.get_aggregate_type_id (db.new tx);
  new_aggregate = λ tx. Streams.new_aggregate (db.new tx);
  new_aggregate_with_key = λ tx. Streams.new_aggregate_with_key (db.new tx);
  get_aggregate_by_id = λ tx. Streams.get_aggregate_by_id (db.new tx);
  get_aggregate_by_key = λ tx. Streams.get_aggregate_by_key (db.new tx);
  get_or_create_aggregate_by_key = λ tx. Streams.get_or_create_aggregate_by_key (db.new tx);
  change_aggregate_natural_key = λ tx. Streams.change_aggregate_natural_key (db.new tx);
  get_aggregate_types = λ tx. Streams.get_aggregate_types (db.new tx);
  get_event_types = λ tx. Streams.get_event_types (db.new tx);
  get_snapshot_for_aggregate = λ tx. Streams.get_snapshot_for_aggregate (db.new tx);
  get_events_for_aggregate = λ tx. Streams.get_events_for_aggregate (db.new tx);
  write_state = λ tx. Streams.write_state (db.new tx);
  get_transaction_info = storing "failed to get snapshot for aggregate" db.begin;
  commit = db.commit;
  rollback = db.rollback;
  upsert_subscription = Subscriptions.upsert_subscription (db.new none);
  add_subscription_event_type = Subscriptions.add_subscription_event_type (db.new none);
  get_subscription_by_name = Subscriptions.get_subscription_by_name (db.new none);
  set_subscription_active = Subscriptions.set_subscription_active (db.new none);
  claim_subscription = Subscriptions.claim_subscription (db.new none);
  renew_subscription = Subscriptions.renew_subscription (db.new none);
  release_subscription = Subscriptions.release_subscription (db.new none);
  get_events_for_subscription = Subscriptions.get_events_for_subscription (db.new none);
  advance_subscription_cursor = Subscriptions.advance_subscription_cursor (db.new none);
  get_max_event_id = Subscriptions.get_max_event_id (db.new none);
  get_first_event_id_from_timestamp = Subscriptions.get_first_event_id_from_timestamp (db.new none);
}
