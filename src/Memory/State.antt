-- ===== src/Memory/State.antt =====
-- The fields of `MemoryStorageEngine`. A `*Subscription` is an address, so that the two maps
-- over subscriptions share their objects; `objects` is the heap and `next_address` its allocator.
use evercore.Base.{ℕ, String, Bool, List, [], Option}
use evercore.Base.Dict.{Dict}
use evercore.Types.{StorageEngineEvent, Snapshot, Subscription}

pub record Memory : Type 0 where
  pub captured_events : List StorageEngineEvent
  pub captured_snapshots : List Snapshot
  pub aggregate_types : Dict String ℕ
  pub aggregate_types_inv : Dict ℕ String
  pub event_types : Dict String ℕ
  pub event_types_inv : Dict ℕ String
  pub count_aggregate_type : ℕ
  pub count_event_types : ℕ
  pub count_aggregates : ℕ
  pub aggregate_to_type_id : Dict ℕ ℕ
  pub aggregates : Dict String ℕ
  pub aggregate_inv : Dict ℕ (Option String)
  pub subscriptions : Dict String ℕ
  pub subscription_by_id : Dict ℕ ℕ
  pub objects : Dict ℕ Subscription
  pub next_address : ℕ
  pub subscription_event_types : Dict ℕ (Dict ℕ Bool)
  pub next_subscription_id : ℕ

-- `NewMemoryStorageEngine`.
abbrev pub new_memory_storage_engine : Memory
new_memory_storage_engine = record {
  captured_events = [];
  captured_snapshots = [];
  aggregate_types = [];
  aggregate_types_inv = [];
  event_types = [];
  event_types_inv = [];
  count_aggregate_type = 0;
  count_event_types = 0;
  count_aggregates = 0;
  aggregate_to_type_id = [];
  aggregates = [];
  aggregate_inv = [];
  subscriptions = [];
  subscription_by_id = [];
  objects = [];
  next_address = 0;
  subscription_event_types = [];
  next_subscription_id = 0;
}
