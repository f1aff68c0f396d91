-- ===== src/Context/Run.antt =====
-- `InReadonlyContext`, `InContext`, `WithReadonlyContext` and `WithContext` of base/eventstore.go.
-- A callback is a method over the context; `clock` is what `SaveState` reads.
pub mod Commits
use evercore.Base.{ℕ, String, Option, none, some}
use evercore.Base.Outcome.{M, Outcome, ok, err, panic, ◌>>=◌, ◌>>◌, wrapping, pure}
use evercore.Engine.{StorageEngine}
use evercore.Store.State.{EventStore, engine_call}
use evercore.Store.Types.{save_state}
use evercore.Context.State.{Context, new_context}

-- A deferred call runs on the state that the body leaves, and its result is dropped.
abbrev pub deferring : {S A B : Type 0} → M S B → M S A → M S A
deferring d m s = let r = m s in (r.0, (d r.1).1)

-- The callback's outcome, with the context that it leaves.
abbrev pub run_in :
    {S Tx A : Type 0} → Option Tx → M (Context S Tx) A → EventStore S → Outcome A × Context S Tx
run_in tx exec store = exec (new_context tx store)

module _ {S Tx : Type 0} (engine : StorageEngine S Tx) where
  unfoldable pub in_readonly_context : {A : Type 0} → M (Context S Tx) A → M (EventStore S) A
  in_readonly_context exec store = let r = run_in none exec store in (r.0, r.1.store)

  unfoldable pub with_readonly_context : M (Context S Tx) (Unit {0}) → M (EventStore S) (Unit {0})
  with_readonly_context exec store = let r = run_in none exec store in (r.0, r.1.store)

  -- What follows the callback: its events and snapshots are written, and the transaction commits.
  unfoldable pub finish :
      {A : Type 0}
      → String
      → String
      → (ℕ → ℕ)
      → Tx
      → Outcome A × Context S Tx
      → Outcome A × EventStore S
  finish save_label commit_label clock tx (ok a, ctx) =
      ((do
        wrapping save_label (save_state engine clock (some tx) ctx.captured_events ctx.snapshots)
        wrapping commit_label (engine_call (engine.commit tx))
        pure a)
        ctx.store)
  finish save_label commit_label clock tx (err e, ctx) = (err e, ctx.store)
  finish save_label commit_label clock tx (panic m, ctx) = (panic m, ctx.store)

  unfoldable pub with_context : (ℕ → ℕ) → M (Context S Tx) (Unit {0}) → M (EventStore S) (Unit {0})
  unfolding finish
  with_context clock exec = do
    tx ←
        wrapping "failed to get transaction info in WithContext"
          (engine_call engine.get_transaction_info)
    deferring (engine_call (engine.rollback tx)) (λ store.
        finish "failed to save state in WithContext" "failed to commit transaction in WithContext"
          clock tx (run_in (some tx) exec store))

  -- What follows `GetTransactionInfo` in `InContext`: the deferred call stands before the test of
  -- the error, and a nil transaction has no `Rollback`.
  run_begun : {A : Type 0} → (ℕ → ℕ) → M (Context S Tx) A → Outcome Tx → M (EventStore S) A
  unfolding finish
  run_begun clock exec (ok tx) = deferring (engine_call (engine.rollback tx)) (λ store.
      finish "failed to save state in InContext" "failed to commit transaction in InContext" clock
        tx (run_in (some tx) exec store))
  run_begun clock exec (err e) = λ store. (panic "nil pointer dereference", store)
  run_begun clock exec (panic m) = λ store. (panic m, store)

  unfoldable pub in_context : {A : Type 0} → (ℕ → ℕ) → M (Context S Tx) A → M (EventStore S) A
  unfolding run_begun
  in_context clock exec store =
      let r = engine_call engine.get_transaction_info store in run_begun clock exec r.0 r.1
