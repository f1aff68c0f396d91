-- ===== src/Store/Aggregates.antt =====
-- The methods of base/eventstore.go that a context calls (`ContextOwner`).
use evercore.Base.{ℕ, String, Bool, List, Option}
use evercore.Base.Outcome.{M, ◌>>=◌, wrapping}
use evercore.Types.{SerializedEvent, Snapshot}
use evercore.Engine.{StorageEngine}
use evercore.Store.State.{EventStore, engine_call}
use evercore.Store.Types.{get_aggregate_type_id}

module _ {S Tx : Type 0} (engine : StorageEngine S Tx) (tx : Option Tx) where
  unfoldable pub new_aggregate : String → M (EventStore S) ℕ
  new_aggregate aggregate_type = do
    aggregate_type_id ←
        wrapping "failed to get aggregate type ID in newAggregate"
          (get_aggregate_type_id engine tx aggregate_type)
    engine_call (engine.new_aggregate tx aggregate_type_id)

  unfoldable pub new_aggregate_with_key : String → String → M (EventStore S) ℕ
  new_aggregate_with_key aggregate_type natural_key = do
    aggregate_type_id ←
        wrapping "failed to get aggregate type ID in newAggregateWithKey"
          (get_aggregate_type_id engine tx aggregate_type)
    engine_call (engine.new_aggregate_with_key tx aggregate_type_id natural_key)

  unfoldable pub get_aggregate_id_by_key : String → String → M (EventStore S) ℕ
  get_aggregate_id_by_key aggregate_type natural_key = do
    aggregate_type_id ←
        wrapping "failed to get aggregate type ID in getAggregateIdByKey"
          (get_aggregate_type_id engine tx aggregate_type)
    wrapping "failed to get aggregate by key in getAggregateIdByKey"
        (engine_call (engine.get_aggregate_by_key tx aggregate_type_id natural_key))

  unfoldable pub get_aggregate_by_id : String → ℕ → M (EventStore S) (ℕ × Option String)
  get_aggregate_by_id aggregate_type aggregate_id = do
    aggregate_type_id ←
        wrapping "failed to get aggregate type ID in getAggregateById"
          (get_aggregate_type_id engine tx aggregate_type)
    wrapping "failed to get aggregate by ID in getAggregateById"
        (engine_call (engine.get_aggregate_by_id tx aggregate_type_id aggregate_id))

  unfoldable pub get_or_create_aggregate_by_key : String → String → M (EventStore S) (Bool × ℕ)
  get_or_create_aggregate_by_key aggregate_type natural_key = do
    aggregate_type_id ←
        wrapping "failed to get aggregate type ID in getOrCreateAggregateByKey"
          (get_aggregate_type_id engine tx aggregate_type)
    engine_call (engine.get_or_create_aggregate_by_key tx aggregate_type_id natural_key)

  unfoldable pub change_aggregate_natural_key : ℕ → String → M (EventStore S) (Unit {0})
  change_aggregate_natural_key aggregate_id natural_key =
      engine_call (engine.change_aggregate_natural_key tx aggregate_id natural_key)

  unfoldable pub load_snapshot : ℕ → M (EventStore S) (Option Snapshot)
  load_snapshot aggregate_id =
      wrapping "failed to get snapshot for aggregate in loadSnapshot"
        (engine_call (engine.get_snapshot_for_aggregate tx aggregate_id))

  unfoldable pub load_events : ℕ → ℕ → M (EventStore S) (List SerializedEvent)
  load_events aggregate_id after_sequence =
      wrapping "failed to get events for aggregate in loadEvents"
        (engine_call (engine.get_events_for_aggregate tx aggregate_id after_sequence))
