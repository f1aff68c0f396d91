-- ===== src/Sql/Engine/Streams.antt =====
-- The methods of `SqliteStorageEngine` for types, aggregates, events and snapshots.
use Prim.Native.String.{len}
use evercore.Base.{
  ℕ, String, Bool, true, false, List, [], ◌∷◌, Option, none, some, map, ltb, ◌==◌, if◌then◌else◌,
  nat_eq,
}
use evercore.Base.Outcome.{
  M, Outcome, ok, err, panic, ◌>>=◌, ◌>>◌, pure, fail, key_exceeds_maximum_length,
}
use evercore.Types.{IdNamePair, SerializedEvent, StorageEngineEvent, Snapshot}
use evercore.Sql.Errors.{wrap_error, is_no_rows, storing, absent_as}
use evercore.Sql.Queries.{Queries, AggregateEventRow}

abbrev pub max_key_length : ℕ
max_key_length = 64

-- What the engine makes of a row of an aggregate's stream.
abbrev pub serialized : ℕ → AggregateEventRow → SerializedEvent
serialized aggregate_id row = record {
  event_id = 0;
  aggregate_id = aggregate_id;
  event_type = row.event_type;
  state = row.state;
  sequence = row.sequence;
  reference = row.reference;
  event_time = row.event_time;
}

module _ {D : Type 0} (queries : Queries D) where
  unfoldable pub get_event_type_id : String → M D ℕ
  get_event_type_id name = do
    event_type_id ←
        storing "failed to get event type id" (absent_as 0 (queries.get_event_type_id_by_name name))
    if event_type_id == 0
        then storing "failed to add event type" (queries.add_event_type name)
        else pure event_type_id

  unfoldable pub get_aggregate_type_id : String → M D ℕ
  get_aggregate_type_id aggregate_type_name = do
    aggregate_type_id ←
        storing "failed to get aggregate type id"
          (absent_as 0 (queries.get_aggregate_type_id_by_name aggregate_type_name))
    if aggregate_type_id == 0
        then storing "failed to add aggregate type" (queries.add_aggregate_type aggregate_type_name)
        else pure aggregate_type_id

  unfoldable pub new_aggregate : ℕ → M D ℕ
  new_aggregate aggregate_type_id =
      storing "failed to create new aggregate" (queries.add_aggregate aggregate_type_id)

  unfoldable pub new_aggregate_with_key : ℕ → String → M D ℕ
  new_aggregate_with_key aggregate_type_id natural_key =
      if ltb max_key_length (len natural_key)
      then fail key_exceeds_maximum_length
      else storing "failed to create aggregate with key"
          (queries.add_aggregate_with_natural_key aggregate_type_id natural_key)

  unfoldable pub change_aggregate_natural_key : ℕ → String → M D (Unit {0})
  change_aggregate_natural_key aggregate_id natural_key =
      if ltb max_key_length (len natural_key)
      then fail key_exceeds_maximum_length
      else storing "failed to change aggregate natural key"
          (queries.change_aggregate_natural_key natural_key aggregate_id)

  unfoldable pub get_aggregate_by_id : ℕ → ℕ → M D (ℕ × Option String)
  get_aggregate_by_id aggregate_type_id aggregate_id =
      storing "failed to get aggregate by id"
        (queries.get_aggregate_by_id aggregate_type_id aggregate_id)

  unfoldable pub get_aggregate_by_key : ℕ → String → M D ℕ
  get_aggregate_by_key aggregate_type_id natural_key =
      storing "failed to get aggregate by key"
        (queries.get_aggregate_id_by_natural_key aggregate_type_id natural_key)

  -- What follows the first query of `GetOrCreateAggregateByKey`.
  create_if_absent : ℕ → String → Outcome ℕ → M D (Bool × ℕ)
  create_if_absent aggregate_type_id natural_key (ok aggregate_id) = pure (false, aggregate_id)
  create_if_absent aggregate_type_id natural_key (err e) =
      if is_no_rows e
      then (do
        aggregate_id ←
            storing "failed to create aggregate with key"
              (queries.add_aggregate_with_natural_key aggregate_type_id natural_key)
        pure (true, aggregate_id))
      else fail (wrap_error "failed to get or create aggregate by key" e)
  create_if_absent aggregate_type_id natural_key (panic m) = λ d. (panic m, d)

  unfoldable pub get_or_create_aggregate_by_key : ℕ → String → M D (Bool × ℕ)
  unfolding create_if_absent
  get_or_create_aggregate_by_key aggregate_type_id natural_key d =
      let found = queries.get_aggregate_id_by_natural_key aggregate_type_id natural_key d in
      if ltb max_key_length (len natural_key)
      then (err key_exceeds_maximum_length, d)
      else create_if_absent aggregate_type_id natural_key found.0 found.1

  unfoldable pub get_event_types : M D (List IdNamePair)
  get_event_types =
      storing "failed to get event types in GetEventTypes" (absent_as [] queries.get_event_types)

  unfoldable pub get_aggregate_types : M D (List IdNamePair)
  get_aggregate_types =
      storing "failed to get aggregate types in GetAggregateTypes"
        (absent_as [] queries.get_aggregate_types)

  unfoldable pub get_snapshot_for_aggregate : ℕ → M D (Option Snapshot)
  get_snapshot_for_aggregate aggregate_id =
      storing "failed to get events for aggregate"
        (absent_as none (do row ← queries.get_most_recent_snapshot aggregate_id; pure (some row)))

  unfoldable pub get_events_for_aggregate : ℕ → ℕ → M D (List SerializedEvent)
  get_events_for_aggregate aggregate_id after_sequence = do
    rows ←
        storing "failed to get events for aggregate in GetEventsForAggregate"
          (absent_as [] (queries.get_events_for_aggregate aggregate_id after_sequence))
    pure (map (serialized aggregate_id) rows)

  -- The two loops of `WriteState`.
  unfoldable pub write_events : List StorageEngineEvent → M D (Unit {0})
  write_events [] = pure tt
  write_events (event ∷ events) = do
    storing "failed to add event" (queries.add_event event)
    write_events events

  unfoldable pub write_snapshots : List Snapshot → M D (Unit {0})
  write_snapshots [] = pure tt
  write_snapshots (snapshot ∷ snapshots) = do
    storing "failed to add snapshot" (queries.add_snapshot snapshot)
    write_snapshots snapshots

  unfoldable pub write_state : List StorageEngineEvent → List Snapshot → M D (Unit {0})
  unfolding write_events write_snapshots
  write_state events snapshots = do write_events events; write_snapshots snapshots
