-- ===== src/Engine.antt =====
-- The interface `StorageEngine` of base/storage.go, over a state `S` of the engine and a type `Tx`
-- of transactions. A nil transaction is `none`. The clock's reading is an argument where an
-- engine reads it.
use evercore.Base.{ℕ, String, Bool, List, Option}
use evercore.Base.Outcome.{M}
use evercore.Types.{IdNamePair, SerializedEvent, StorageEngineEvent, Snapshot, Subscription}

pub record StorageEngine (S Tx : Type 0) : Type 0 where
  pub get_max_key_length : ℕ
  pub get_event_type_id : Option Tx → String → M S ℕ
  pub get_aggregate_type_id : Option Tx → String → M S ℕ
  pub new_aggregate : Option Tx → ℕ → M S ℕ
  pub new_aggregate_with_key : Option Tx → ℕ → String → M S ℕ
  pub get_aggregate_by_id : Option Tx → ℕ → ℕ → M S (ℕ × Option String)
  pub get_aggregate_by_key : Option Tx → ℕ → String → M S ℕ
  pub get_or_create_aggregate_by_key : Option Tx → ℕ → String → M S (Bool × ℕ)
  pub change_aggregate_natural_key : Option Tx → ℕ → String → M S (Unit {0})
  pub get_aggregate_types : Option Tx → M S (List IdNamePair)
  pub get_event_types : Option Tx → M S (List IdNamePair)
  pub get_snapshot_for_aggregate : Option Tx → ℕ → M S (Option Snapshot)
  pub get_events_for_aggregate : Option Tx → ℕ → ℕ → M S (List SerializedEvent)
  pub write_state : Option Tx → List StorageEngineEvent → List Snapshot → M S (Unit {0})
  pub get_transaction_info : M S Tx
  pub commit : Tx → M S (Unit {0})
  pub rollback : Tx → M S (Unit {0})
  pub upsert_subscription :
      String → Option ℕ → Option ℕ → Option String → String → ℕ → Option ℕ → M S ℕ
  pub add_subscription_event_type : ℕ → ℕ → M S (Unit {0})
  pub get_subscription_by_name : String → M S Subscription
  pub set_subscription_active : ℕ → Bool → M S (Unit {0})
  pub claim_subscription : String → String → ℕ → ℕ → M S Bool
  pub renew_subscription : String → String → ℕ → ℕ → M S Bool
  pub release_subscription : String → String → M S (Unit {0})
  pub get_events_for_subscription : Subscription → ℕ → M S (List SerializedEvent)
  pub advance_subscription_cursor : ℕ → ℕ → M S (Unit {0})
  pub get_max_event_id : M S ℕ
  pub get_first_event_id_from_timestamp : ℕ → M S ℕ
