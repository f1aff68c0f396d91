-- ===== src/Context/State.antt =====
-- `EventStoreContextType`, with the state of the store that it belongs to.
use evercore.Base.{List, [], ◌∷◌, ◌++◌, Option}
use evercore.Base.Outcome.{M, ok}
use evercore.Types.{SerializedEvent, Snapshot}
use evercore.Store.State.{EventStore}

pub record Context (S Tx : Type 0) : Type 0 where
  pub captured_events : List SerializedEvent
  pub snapshots : List Snapshot
  pub transaction : Option Tx
  pub store : EventStore S

-- `newEventStoreReadonlyContextType` and `newEventStoreContextType`.
abbrev pub new_context : {S Tx : Type 0} → Option Tx → EventStore S → Context S Tx
new_context tx s = record { captured_events = []; snapshots = []; transaction = tx; store = s }

-- A call of the store from a method of the context.
abbrev pub store_call : {S Tx A : Type 0} → (Option Tx → M (EventStore S) A) → M (Context S Tx) A
store_call m ctx = let r = m ctx.transaction ctx.store in (r.0, record ctx { store = r.1 })

module _ {S Tx : Type 0} where
  unfoldable pub publish : SerializedEvent → M (Context S Tx) (Unit {0})
  publish event ctx = (ok tt, record ctx { captured_events = ctx.captured_events ++ event ∷ [] })

  unfoldable pub save_snapshot : Snapshot → M (Context S Tx) (Unit {0})
  save_snapshot snapshot ctx = (ok tt, record ctx { snapshots = ctx.snapshots ++ snapshot ∷ [] })
