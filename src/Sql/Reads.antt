-- ===== src/Sql/Reads.antt =====
-- Tables that hold what an in-memory engine holds, and what a subscription reads of either.
pub mod Pending
pub mod Refinement
use evercore.Base.{
  ℕ, ◌+◌, String, Bool, List, [], ◌∷◌, Option, none, some, ltb, length, All, with_default, ◌==◌,
  false, ◌≡◌, nat_eq, string_eq,
}
use evercore.Base.Dict.{lookup}
use evercore.Types.{StorageEngineEvent, SerializedEvent}
use evercore.Memory.State.{Memory}
use evercore.Memory.Events.{event_type_set, has_event_types}
use evercore.Sql.Tables.Rows.{Tables, AggregateRow, EventRow, any}
use evercore.Sql.Tables.Streams.{name_of_id}
use evercore.Sql.Tables.Subscriptions.{aggregate_of, is_type_of}

abbrev pub row_of : ℕ → StorageEngineEvent → EventRow
row_of id e = record {
  id = id;
  aggregate_id = e.aggregate_id;
  sequence = e.sequence;
  event_type_id = e.event_type_id;
  state = e.state;
  event_time = e.event_time;
  reference = e.reference;
}

-- The rows of a log: an event's id is its position, counted from 1.
abbrev pub Logged : ℕ → List StorageEngineEvent → List EventRow → Type 0
Logged idx [] [] = Unit
Logged idx [] (r ∷ rs) = ⊥
Logged idx (e ∷ es) [] = ⊥
Logged idx (e ∷ es) (r ∷ rs) = (r ≡ row_of (idx + 1) e) × Logged (idx + 1) es rs

-- The aggregate of an event and the names of its types are in the tables, as they are in the maps.
pub record Known (t : Tables) (m : Memory) (e : StorageEngineEvent) : Type 0 where
  pub row : AggregateRow
  pub found : aggregate_of t e.aggregate_id ≡ some row
  pub typed : lookup e.aggregate_id m.aggregate_to_type_id ≡ some row.aggregate_type_id
  pub keyed : lookup e.aggregate_id m.aggregate_inv ≡ some row.natural_key
  pub aggregate_type : String
  pub aggregate_type_named :
      name_of_id row.aggregate_type_id t.aggregate_types ≡ some aggregate_type
  pub event_type : String
  pub event_type_named : name_of_id e.event_type_id t.event_types ≡ some event_type
  pub same_name : lookup e.event_type_id m.event_types_inv ≡ some event_type

pub record Represents (t : Tables) (m : Memory) : Type 0 where
  pub logged : Logged 0 m.captured_events t.events
  pub known : All (Known t m) m.captured_events
  pub multi :
      (id : ℕ)
      → any (λ r. r.0 == id) t.subscription_event_types
        ≡ ltb 0 (length (with_default (lookup id m.subscription_event_types) []))
  pub among :
      (id type_id : ℕ)
      → any (is_type_of id type_id) t.subscription_event_types
        ≡ with_default
            (lookup type_id (with_default (lookup id m.subscription_event_types) []))
            false

-- An event as the SQL engines return it to a subscription.
abbrev pub unreferenced : SerializedEvent → SerializedEvent
unreferenced e = record e { reference = "" }
