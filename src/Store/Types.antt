-- ===== src/Store/Types.antt =====
-- Type ids through the store's cache, and `SaveState`, of base/eventstore.go.
pub mod Saving
use evercore.Base.{
  ℕ, zero, suc, String, List, [], ◌∷◌, ◌++◌, Option, none, some, ◌==◌, if◌then◌else◌, nat_eq,
  string_eq,
}
use evercore.Base.Dict.{lookup, insert}
use evercore.Base.Outcome.{M, ok, ◌>>=◌, wrapping, pure}
use evercore.Types.{SerializedEvent, StorageEngineEvent, Snapshot, zero_time}
use evercore.Engine.{StorageEngine}
use evercore.Store.State.{EventStore, engine_call}

-- The record that is written for an event, stamped with the clock's reading if it has no time.
unfoldable pub storage_event : ℕ → ℕ → SerializedEvent → StorageEngineEvent
storage_event now event_type_id event = record {
  aggregate_id = event.aggregate_id;
  sequence = event.sequence;
  event_type_id = event_type_id;
  state = event.state;
  event_time = if event.event_time == zero_time then now else event.event_time;
  reference = event.reference;
}

module _ {S Tx : Type 0} (engine : StorageEngine S Tx) where
  -- What `getAggregateTypeId` does with the engine's id.
  remember_aggregate_type : String → ℕ → M (EventStore S) ℕ
  remember_aggregate_type name id store =
      (ok id, record store { aggregate_type_lookup = insert name id store.aggregate_type_lookup })

  unfoldable pub get_aggregate_type_id : Option Tx → String → M (EventStore S) ℕ
  unfolding remember_aggregate_type
  get_aggregate_type_id tx name store = elim (lookup name store.aggregate_type_lookup) [
    | some id ↦ (ok id, store)
    | none ↦
        ◌>>=◌
          (wrapping "failed to get aggregate type ID in getAggregateTypeId"
            (engine_call (engine.get_aggregate_type_id tx name)))
          (remember_aggregate_type name) store
  ]

  remember_event_type : String → ℕ → M (EventStore S) ℕ
  remember_event_type name id store =
      (ok id, record store { event_type_lookup = insert name id store.event_type_lookup })

  unfoldable pub get_event_type_id : Option Tx → String → M (EventStore S) ℕ
  unfolding remember_event_type
  get_event_type_id tx name store = elim (lookup name store.event_type_lookup) [
    | some id ↦ (ok id, store)
    | none ↦
        ◌>>=◌
          (wrapping "failed to get event type ID in getEventTypeId"
            (engine_call (engine.get_event_type_id tx name)))
          (remember_event_type name) store
  ]

  -- The loop of `SaveState`; `clock` gives the reading for each round.
  unfoldable pub save_loop :
      (ℕ → ℕ)
      → Option Tx
      → List SerializedEvent
      → List StorageEngineEvent
      → M (EventStore S) (List StorageEngineEvent)
  save_loop clock tx [] storage_events = pure storage_events
  save_loop clock tx (event ∷ events) storage_events = do
    event_type_id ←
        wrapping "failed to get event type ID in SaveState" (get_event_type_id tx event.event_type)
    save_loop (λ i. clock (suc i)) tx events
        (storage_events ++ storage_event (clock zero) event_type_id event ∷ [])

  unfoldable pub save_state :
      (ℕ → ℕ) → Option Tx → List SerializedEvent → List Snapshot → M (EventStore S) (Unit {0})
  unfolding save_loop
  save_state clock tx events snapshots = do
    storage_events ← save_loop clock tx events []
    engine_call (engine.write_state tx storage_events snapshots)
