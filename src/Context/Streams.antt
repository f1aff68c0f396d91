-- ===== src/Context/Streams.antt =====
-- The methods of a context that work with ids and stored streams.
use evercore.Base.{ℕ, String, List, Option, none, some}
use evercore.Base.Outcome.{M, ◌>>=◌, wrapping, pure}
use evercore.Types.{SerializedEvent, Snapshot}
use evercore.Engine.{StorageEngine}
use evercore.Store.Aggregates as Owner
use evercore.Context.State.{Context, store_call}

pub record AggregateState : Type 0 where
  pub aggregate_id : ℕ
  pub natural_key : Option String
  pub snapshot : Option Snapshot
  pub events : List SerializedEvent

-- The sequence from which events are still to be read.
abbrev pub snapshot_sequence : Option Snapshot → ℕ
snapshot_sequence none = 0
snapshot_sequence (some s) = s.sequence

module _ {S Tx : Type 0} (engine : StorageEngine S Tx) where
  unfoldable pub new_aggregate_id : String → M (Context S Tx) ℕ
  new_aggregate_id aggregate_type = store_call λ tx. Owner.new_aggregate engine tx aggregate_type

  unfoldable pub new_aggregate_id_with_key : String → String → M (Context S Tx) ℕ
  new_aggregate_id_with_key aggregate_type natural_key =
      store_call λ tx. Owner.new_aggregate_with_key engine tx aggregate_type natural_key

  unfoldable pub load_state : ℕ → Option String → M (Context S Tx) AggregateState
  load_state aggregate_id natural_key = do
    snapshot ←
        wrapping "failed to load snapshot in loadState"
          (store_call λ tx. Owner.load_snapshot engine tx aggregate_id)
    events ←
        wrapping "failed to load events in loadState"
          (store_call λ tx. Owner.load_events engine tx aggregate_id (snapshot_sequence snapshot))
    pure (record {
      aggregate_id = aggregate_id;
      natural_key = natural_key;
      snapshot = snapshot;
      events = events;
    })

  unfoldable pub load_aggregate_state : String → ℕ → M (Context S Tx) AggregateState
  load_aggregate_state aggregate_type aggregate_id = do
    found ←
        wrapping "failed to get aggregate by ID in LoadAggregateState"
          (store_call λ tx. Owner.get_aggregate_by_id engine tx aggregate_type aggregate_id)
    load_state aggregate_id found.1

  unfoldable pub load_aggregate_state_by_key : String → String → M (Context S Tx) AggregateState
  load_aggregate_state_by_key aggregate_type natural_key = do
    aggregate_id ←
        wrapping "failed to get aggregate by key in LoadAggregateStateByKey"
          (store_call λ tx. Owner.get_aggregate_id_by_key engine tx aggregate_type natural_key)
    load_state aggregate_id (some natural_key)

  unfoldable pub change_aggregate_natural_key : ℕ → String → M (Context S Tx) (Unit {0})
  change_aggregate_natural_key id natural_key =
      wrapping "failed to change aggregate natural key in ChangeAggregateNaturalKey"
        (store_call λ tx. Owner.change_aggregate_natural_key engine tx id natural_key)
