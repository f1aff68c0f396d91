-- ===== src/Sql/Queries.antt =====
-- The statements that the SQL engines send to their database, as an interface: the methods of
-- `Queries` that sqlc has generated from queries.sql, and the statements that the engines write
-- out for subscriptions. A query for one row fails with `no_rows` where there is none.
use evercore.Base.{ℕ, String, Bool, List, Option}
use evercore.Base.Outcome.{M}
use evercore.Types.{IdNamePair, StorageEngineEvent, Snapshot, Subscription}

pub record AggregateEventRow : Type 0 where
  pub sequence : ℕ
  pub event_type : String
  pub state : String
  pub event_time : ℕ
  pub reference : String

-- The columns of the view `event_log`.
pub record EventLogRow : Type 0 where
  pub id : ℕ
  pub aggregate_id : ℕ
  pub natural_key : Option String
  pub sequence : ℕ
  pub aggregate_type_id : ℕ
  pub aggregate_type : String
  pub event_type_id : ℕ
  pub event_type : String
  pub event_time : ℕ
  pub state : String

-- A condition that `GetEventsForSubscription` adds to its query.
pub data Condition : Type 0 where
  aggregate_type_is : ℕ → Condition
  natural_key_is : String → Condition
  event_type_among : ℕ → Condition
  event_type_is : ℕ → Condition

pub record Queries (D : Type 0) : Type 0 where
  pub add_aggregate_type : String → M D ℕ
  pub get_aggregate_types : M D (List IdNamePair)
  pub get_aggregate_type_id_by_name : String → M D ℕ
  pub add_event_type : String → M D ℕ
  pub get_event_types : M D (List IdNamePair)
  pub get_event_type_id_by_name : String → M D ℕ
  pub add_aggregate : ℕ → M D ℕ
  pub add_aggregate_with_natural_key : ℕ → String → M D ℕ
  pub get_aggregate_id_by_natural_key : ℕ → String → M D ℕ
  pub get_aggregate_by_id : ℕ → ℕ → M D (ℕ × Option String)
  pub change_aggregate_natural_key : String → ℕ → M D (Unit {0})
  pub add_event : StorageEngineEvent → M D (Unit {0})
  pub get_events_for_aggregate : ℕ → ℕ → M D (List AggregateEventRow)
  pub add_snapshot : Snapshot → M D (Unit {0})
  pub get_most_recent_snapshot : ℕ → M D Snapshot
  pub upsert_subscription :
      String → Option ℕ → Option ℕ → Option String → String → ℕ → Option ℕ → M D (Unit {0})
  pub select_subscription_id : String → M D ℕ
  pub insert_subscription_event_type : ℕ → ℕ → M D (Unit {0})
  pub select_subscription : String → M D Subscription
  pub update_active : Bool → ℕ → M D (Unit {0})
  -- The number of rows that an update has changed.
  pub update_lease_if_free : String → ℕ → String → ℕ → M D ℕ
  pub update_lease_of : ℕ → String → String → M D ℕ
  pub clear_lease_of : String → String → M D (Unit {0})
  pub select_event_type_of : ℕ → M D ℕ
  pub select_events : ℕ → List Condition → ℕ → M D (List EventLogRow)
  pub update_cursor : ℕ → ℕ → M D (Unit {0})
  pub select_max_event_id : M D (Option ℕ)
  pub select_first_event_from : ℕ → M D ℕ

-- A `*sql.DB`: its transactions, and its statements inside one or outside of them.
pub record Connection (D Tx : Type 0) : Type 0 where
  pub begin : M D Tx
  pub commit : Tx → M D (Unit {0})
  pub rollback : Tx → M D (Unit {0})
  pub new : Option Tx → Queries D
