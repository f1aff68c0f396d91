-- ===== src/Tests.antt =====
-- Concrete runs of the library, to which its theorems are applied.
mod Aggregates
mod Commits
mod States
mod Logs
mod Runs
mod Streams
mod Databases
mod Deliveries
mod Cancels
mod Loads
mod Claims
mod Statements
mod Generated
mod Outputs
mod Postgres
use evercore.Base.{ℕ, String, List, [], ◌∷◌, none, some, true}
use evercore.Types.{StorageEngineEvent, Subscription, SerializedEvent}
use evercore.Memory.State.{Memory, new_memory_storage_engine}

-- Three orders placed and one paid, in two streams.
abbrev pub log : List StorageEngineEvent
log =
    record {
      aggregate_id = 1;
      sequence = 1;
      event_type_id = 1;
      state = "a";
      event_time = 10;
      reference = "r";
    }
    ∷ record {
      aggregate_id = 2;
      sequence = 1;
      event_type_id = 1;
      state = "b";
      event_time = 20;
      reference = "";
    }
    ∷ record {
      aggregate_id = 1;
      sequence = 2;
      event_type_id = 2;
      state = "c";
      event_time = 30;
      reference = "";
    }
    ∷ record {
      aggregate_id = 2;
      sequence = 2;
      event_type_id = 1;
      state = "d";
      event_time = 40;
      reference = "";
    }
    ∷ []

-- A subscription to the events of type 1, with a lease until 100.
abbrev pub placed : Subscription
placed = record {
  id = 1;
  name = "placed";
  aggregate_type_id = none;
  event_type_id = some 1;
  aggregate_key = none;
  start_from = "beginning";
  start_event_id = 0;
  start_timestamp = none;
  last_event_id = 0;
  active = true;
  lease_owner = some "w1";
  lease_expires_at = some 100;
}

abbrev pub shop : Memory
shop = record new_memory_storage_engine {
  captured_events = log;
  event_types = ("placed", 1) ∷ ("paid", 2) ∷ [];
  event_types_inv = (1, "placed") ∷ (2, "paid") ∷ [];
  count_event_types = 2;
  subscriptions = ("placed", 0) ∷ [];
  subscription_by_id = (1, 0) ∷ [];
  objects = (0, placed) ∷ [];
  next_address = 1;
  next_subscription_id = 1;
}

-- What the runner reads of the log for it.
abbrev pub read_event :
    (id aggregate sequence time : ℕ) → (state reference : String) → SerializedEvent
read_event id aggregate sequence time state reference = record {
  event_id = id;
  aggregate_id = aggregate;
  event_type = "placed";
  state = state;
  sequence = sequence;
  reference = reference;
  event_time = time;
}
