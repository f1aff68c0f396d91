-- ===== src/Sql/Tables/Streams.antt =====
-- The statements on types, aggregates, events and snapshots.
use evercore.Base.{
  ℕ, ◌+◌, String, Bool, false, not, ◌&&◌, List, [], ◌∷◌, ◌++◌, Option, none, some, keep_if, ltb,
  ◌==◌, if◌then◌else◌, nat_eq, string_eq,
}
use evercore.Base.Outcome.{M, Outcome, ok, err, unique_violation}
use evercore.Types.{IdNamePair, StorageEngineEvent, Snapshot}
use evercore.Sql.Queries.{AggregateEventRow}
use evercore.Sql.Tables.Rows.{
  Tables, AggregateRow, EventRow, SnapshotRow, one_row, one_row_as, find, any, max_id, order_by,
  greatest, update,
}

-- `INSERT INTO … (name)`, for a table of names.
unfoldable pub add_name : String → String → List IdNamePair → Outcome ℕ × List IdNamePair
add_name column name types =
    let id = max_id (λ p. p.id) types + 1 in
    if any (λ p. p.name == name) types
    then (err (unique_violation column), types)
    else (ok id, types ++ record { id = id; name = name } ∷ [])

unfoldable pub id_of_name : String → List IdNamePair → Option ℕ
id_of_name name [] = none
id_of_name name (p ∷ ps) =
    let rest = id_of_name name ps in if p.name == name then some p.id else rest

unfoldable pub add_aggregate_type : String → M Tables ℕ
add_aggregate_type name t =
    let r = add_name "aggregate_types.name" name t.aggregate_types in
    (r.0, record t { aggregate_types = r.1 })

unfoldable pub add_event_type : String → M Tables ℕ
add_event_type name t =
    let r = add_name "event_types.name" name t.event_types in (r.0, record t { event_types = r.1 })

unfoldable pub get_aggregate_type_id_by_name : String → M Tables ℕ
get_aggregate_type_id_by_name name t = (one_row (id_of_name name t.aggregate_types), t)

unfoldable pub get_event_type_id_by_name : String → M Tables ℕ
get_event_type_id_by_name name t = (one_row (id_of_name name t.event_types), t)

unfoldable pub get_aggregate_types : M Tables (List IdNamePair)
get_aggregate_types t = (ok t.aggregate_types, t)

unfoldable pub get_event_types : M Tables (List IdNamePair)
get_event_types t = (ok t.event_types, t)

-- `natural_key = …`, which is not true of a null key.
abbrev pub has_key : String → AggregateRow → Bool
has_key key row = elim row.natural_key [ none ↦ false | some k ↦ k == key ]

-- A new row of aggregates.
abbrev pub enter : ℕ → Option String → Tables → Outcome ℕ × Tables
enter aggregate_type_id natural_key t =
    let id = max_id (λ a. a.id) t.aggregates + 1 in
    let row : AggregateRow = record {
      id = id;
      aggregate_type_id = aggregate_type_id;
      natural_key = natural_key;
    } in
    (ok id, record t { aggregates = t.aggregates ++ row ∷ [] })

unfoldable pub add_aggregate : ℕ → M Tables ℕ
add_aggregate aggregate_type_id t = enter aggregate_type_id none t

unfoldable pub add_aggregate_with_natural_key : ℕ → String → M Tables ℕ
add_aggregate_with_natural_key aggregate_type_id natural_key t =
    if any (has_key natural_key) t.aggregates
    then (err (unique_violation "aggregates.natural_key"), t)
    else enter aggregate_type_id (some natural_key) t

unfoldable pub get_aggregate_id_by_natural_key : ℕ → String → M Tables ℕ
get_aggregate_id_by_natural_key aggregate_type_id natural_key t =
    let row =
      find (λ a. a.aggregate_type_id == aggregate_type_id && has_key natural_key a) t.aggregates in
    (one_row_as (λ a. a.id) row, t)

unfoldable pub get_aggregate_by_id : ℕ → ℕ → M Tables (ℕ × Option String)
get_aggregate_by_id aggregate_type_id aggregate_id t =
    let row =
      find (λ a. a.aggregate_type_id == aggregate_type_id && a.id == aggregate_id) t.aggregates in
    (one_row_as (λ a. (a.id, a.natural_key)) row, t)

-- Another row has the key.
abbrev pub key_taken : ℕ → String → List AggregateRow → Bool
key_taken aggregate_id natural_key = any (λ a. not (a.id == aggregate_id) && has_key natural_key a)

unfoldable pub change_aggregate_natural_key : String → ℕ → M Tables (Unit {0})
change_aggregate_natural_key natural_key aggregate_id t =
    if any (λ a. a.id == aggregate_id) t.aggregates
      && key_taken aggregate_id natural_key t.aggregates
    then (err (unique_violation "aggregates.natural_key"), t)
    else (
      ok tt,
      record t {
        aggregates =
            update (λ a. a.id == aggregate_id) (λ a. record a { natural_key = some natural_key })
              t.aggregates;
      },
    )

-- `UNIQUE(aggregate_id, sequence)`
abbrev pub at_sequence : ℕ → ℕ → EventRow → Bool
at_sequence aggregate_id sequence row = row.aggregate_id == aggregate_id && row.sequence == sequence

unfoldable pub add_event : StorageEngineEvent → M Tables (Unit {0})
add_event event t =
    let row : EventRow = record {
      id = max_id (λ e. e.id) t.events + 1;
      aggregate_id = event.aggregate_id;
      sequence = event.sequence;
      event_type_id = event.event_type_id;
      state = event.state;
      event_time = event.event_time;
      reference = event.reference;
    } in
    if any (at_sequence event.aggregate_id event.sequence) t.events
    then (err (unique_violation "events.aggregate_id, events.sequence"), t)
    else (ok tt, record t { events = t.events ++ row ∷ [] })

-- `JOIN event_types AS et ON e.event_type_id = et.id`
unfoldable pub name_of_id : ℕ → List IdNamePair → Option String
name_of_id id [] = none
name_of_id id (p ∷ ps) = let rest = name_of_id id ps in if p.id == id then some p.name else rest

unfoldable pub joined : List IdNamePair → List EventRow → List AggregateEventRow
unfolding name_of_id
joined types [] = []
joined types (e ∷ es) =
    let rest = joined types es in
    elim (name_of_id e.event_type_id types) [
      | none ↦ rest
      | some name ↦
          record {
            sequence = e.sequence;
            event_type = name;
            state = e.state;
            event_time = e.event_time;
            reference = e.reference;
          }
          ∷ rest
    ]

unfoldable pub get_events_for_aggregate : ℕ → ℕ → M Tables (List AggregateEventRow)
unfolding joined
get_events_for_aggregate aggregate_id after_sequence t =
    let rows =
      keep_if (λ e. e.aggregate_id == aggregate_id && ltb after_sequence e.sequence) t.events in
    (ok (order_by (λ r. r.sequence) (joined t.event_types rows)), t)

unfoldable pub add_snapshot : Snapshot → M Tables (Unit {0})
add_snapshot snapshot t =
    let row : SnapshotRow = record {
      id = max_id (λ s. s.id) t.snapshots + 1;
      aggregate_id = snapshot.aggregate_id;
      sequence = snapshot.sequence;
      state = snapshot.state;
    } in
    if any (λ s. s.aggregate_id == snapshot.aggregate_id && s.sequence == snapshot.sequence)
      t.snapshots
    then (err (unique_violation "snapshots.aggregate_id, snapshots.sequence"), t)
    else (ok tt, record t { snapshots = t.snapshots ++ row ∷ [] })

unfoldable pub get_most_recent_snapshot : ℕ → M Tables Snapshot
get_most_recent_snapshot aggregate_id t =
    let rows = keep_if (λ s. s.aggregate_id == aggregate_id) t.snapshots in
    let snapshot : SnapshotRow → Snapshot =
      λ s. record { aggregate_id = s.aggregate_id; state = s.state; sequence = s.sequence } in
    (one_row_as snapshot (greatest (λ s. s.sequence) rows), t)
