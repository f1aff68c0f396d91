-- ===== src/Sql/Transactions/Loads.antt =====
-- What a `WithContext` over a SQL engine has saved is what a later read of a stream returns.
pub mod Names
pub mod Gains
pub mod Saved
pub mod Joined
pub mod Events
pub mod Ordered
pub mod Reads
use evercore.Base.{
  ℕ, zero, suc, String, Bool, List, [], ◌∷◌, ◌++◌, none, some, ◌≡◌, ◌&&◌, ◌==◌, nat_eq, string_eq,
  ltb, if◌then◌else◌,
}
use evercore.Base.Dict.{lookup}
use evercore.Types.{IdNamePair, SerializedEvent, StorageEngineEvent, zero_time}
use evercore.Sql.Queries.{AggregateEventRow}
use evercore.Sql.Tables.Rows.{Tables, EventRow}
use evercore.Sql.Tables.Streams.{name_of_id}
use evercore.Sql.Tables.Database.{Database, in_transaction}
use evercore.Sql.Valid.{Apart, same_pair_id}
use evercore.Store.State.{EventStore}
use evercore.Store.Types as Store

-- A store inside a transaction with these tables: its cache agrees with them on event types, whose
-- ids are distinct.
pub record Ready (t : Tables) (s : EventStore Database) (u : Tables) : Type 0 where
  pub begun : s.storage_engine ≡ in_transaction t u
  pub apart : Apart same_pair_id u.event_types
  pub cached :
      (name : String) (id : ℕ)
      → lookup name s.event_type_lookup ≡ some id
      → name_of_id id u.event_types ≡ some name

-- The records made of some events, each under an id that the table has for the event's type.
abbrev pub Recorded : Tables → (ℕ → ℕ) → List SerializedEvent → List StorageEngineEvent → Type 0
Recorded u clock [] [] = Unit
Recorded u clock (e ∷ es) [] = ⊥
Recorded u clock [] (r ∷ rs) = ⊥
Recorded u clock (e ∷ es) (r ∷ rs) =
    (r ≡ Store.storage_event (clock zero) r.event_type_id e)
    × (name_of_id r.event_type_id u.event_types ≡ some e.event_type)
    × Recorded u (λ i. clock (suc i)) es rs

-- A row of the table that a read of a stream is after.
abbrev pub is_wanted : ℕ → ℕ → EventRow → Bool
is_wanted aggregate_id after e = e.aggregate_id == aggregate_id && ltb after e.sequence

-- A captured event as a row of its stream, and those that a read is after.
abbrev pub row_of_captured : ℕ → SerializedEvent → AggregateEventRow
row_of_captured now e = record {
  sequence = e.sequence;
  event_type = e.event_type;
  state = e.state;
  event_time = if e.event_time == zero_time then now else e.event_time;
  reference = e.reference;
}

abbrev pub captured_rows : (ℕ → ℕ) → ℕ → ℕ → List SerializedEvent → List AggregateEventRow
captured_rows clock aggregate_id after [] = []
captured_rows clock aggregate_id after (e ∷ es) =
    let rest = captured_rows (λ i. clock (suc i)) aggregate_id after es in
    if e.aggregate_id == aggregate_id && ltb after e.sequence
    then row_of_captured (clock zero) e ∷ rest
    else rest

-- What a read of a stream is to return of the rows of the table, where a row's type has a name, and
-- of the captured events: an event without an id.
abbrev pub earlier_events : List IdNamePair → ℕ → ℕ → List EventRow → List SerializedEvent
earlier_events types aggregate_id after [] = []
earlier_events types aggregate_id after (row ∷ rows) =
    let rest = earlier_events types aggregate_id after rows in
    if row.aggregate_id == aggregate_id && ltb after row.sequence
    then elim (name_of_id row.event_type_id types) [
      | none ↦ rest
      | some name ↦
          record {
            event_id = 0;
            aggregate_id = aggregate_id;
            event_type = name;
            state = row.state;
            sequence = row.sequence;
            reference = row.reference;
            event_time = row.event_time;
          }
          ∷ rest
    ]
    else rest

abbrev pub later_events : (ℕ → ℕ) → ℕ → ℕ → List SerializedEvent → List SerializedEvent
later_events clock aggregate_id after [] = []
later_events clock aggregate_id after (e ∷ es) =
    let rest = later_events (λ i. clock (suc i)) aggregate_id after es in
    if e.aggregate_id == aggregate_id && ltb after e.sequence
    then record {
      event_id = 0;
      aggregate_id = aggregate_id;
      event_type = e.event_type;
      state = e.state;
      sequence = e.sequence;
      reference = e.reference;
      event_time = if e.event_time == zero_time then clock zero else e.event_time;
    }
      ∷ rest
    else rest
