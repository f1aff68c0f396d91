-- ===== src/Memory/Engine.antt =====
-- `MemoryStorageEngine` as a `StorageEngine`. Its transactions do nothing: `Commit` and `Rollback`
-- return nil, and every call acts on the one state. `order` is the order in which the runtime
-- ranges over a map.
use evercore.Base.{List}
use evercore.Base.Outcome.{pure}
use evercore.Types.{IdNamePair}
use evercore.Engine.{StorageEngine}
use evercore.Memory.State.{Memory}
use evercore.Memory.TypeIds
use evercore.Memory.Aggregates
use evercore.Memory.Events
use evercore.Memory.Leases

abbrev pub memory_engine : (List IdNamePair → List IdNamePair) → StorageEngine Memory (Unit {0})
memory_engine order = record {
  get_max_key_length = Aggregates.max_key_length;
  get_event_type_id = λ tx. TypeIds.get_event_type_id;
  get_aggregate_type_id = λ tx. TypeIds.get_aggregate_type_id;
  new_aggregate = λ tx. Aggregates.new_aggregate;
  new_aggregate_with_key = λ tx. Aggregates.new_aggregate_with_key;
  get_aggregate_by_id = λ tx. Aggregates.get_aggregate_by_id;
  get_aggregate_by_key = λ tx. Aggregates.get_aggregate_by_key;
  get_or_create_aggregate_by_key = λ tx. Aggregates.get_or_create_aggregate_by_key;
  change_aggregate_natural_key = λ tx. Aggregates.change_aggregate_natural_key;
  get_aggregate_types = λ tx. TypeIds.get_aggregate_types order;
  get_event_types = λ tx. TypeIds.get_event_types order;
  get_snapshot_for_aggregate = λ tx. Events.get_snapshot_for_aggregate;
  get_events_for_aggregate = λ tx. Events.get_events_for_aggregate;
  write_state = λ tx. Events.write_state;
  get_transaction_info = pure tt;
  commit = λ tx. pure tt;
  rollback = λ tx. pure tt;
  upsert_subscription = Leases.upsert_subscription;
  add_subscription_event_type = Leases.add_subscription_event_type;
  get_subscription_by_name = Leases.get_subscription_by_name;
  set_subscription_active = Leases.set_subscription_active;
  claim_subscription = Leases.claim_subscription;
  renew_subscription = Leases.renew_subscription;
  release_subscription = Leases.release_subscription;
  get_events_for_subscription = Events.get_events_for_subscription;
  advance_subscription_cursor = Leases.advance_subscription_cursor;
  get_max_event_id = Events.get_max_event_id;
  get_first_event_id_from_timestamp = Events.get_first_event_id_from_timestamp;
}
