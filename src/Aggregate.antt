-- ===== src/Aggregate.antt =====
-- The interfaces `Aggregate` of base/aggregate.go and `EventState` of base/context.go, which a
-- client of the library implements. `G` is the object's state; a method that may change it
-- returns the state that it leaves, also when it fails.
use evercore.Base.{ℕ, String}
use evercore.Base.Outcome.{M, Outcome}
use evercore.Types.{Snapshot}

pub record EventState (E : Type 0) : Type 0 where
  pub get_event_type : E → String
  pub serialize : E → String

pub record Aggregate (E G : Type 0) : Type 0 where
  pub get_id : G → ℕ
  pub set_id : ℕ → G → G
  pub get_sequence : G → ℕ
  pub set_sequence : ℕ → G → G
  pub get_aggregate_type : G → String
  pub get_snapshot_frequency : G → ℕ
  pub get_snapshot_state : G → Outcome String
  pub apply_event_state : E → ℕ → String → M G (Unit {0})
  pub apply_snapshot : Snapshot → M G (Unit {0})
