-- ===== src/Context/Run/Commits.antt =====
-- What a run of `WithContext` over the in-memory engine leaves in the log.
use evercore.Base.{ℕ, List, ◌++◌, ◌≡◌, some, refl}
use evercore.Base.Outcome.{M, Outcome, ok, err, panic}
use evercore.Types.{IdNamePair, StorageEngineEvent}
use evercore.Memory.State.{Memory}
use evercore.Memory.Engine.{memory_engine}
use evercore.Store.State.{EventStore}
use evercore.Store.Types.Saving.{StoreValid, Records, save_state-Records}
use evercore.Context.State.{Context}
use evercore.Context.Run.{with_context, in_context, run_in, finish, run_begun}

-- What a run leaves in a store, by the callback's outcome and the context that it left: one record
-- for each captured event, each under an id of its event type, and the snapshots; or nothing.
abbrev pub Ends :
    {A : Type 0} → (ℕ → ℕ) → Context Memory (Unit {0}) → Outcome A → EventStore Memory → Type 0
Ends clock ctx (ok a) s =
    (rs : List StorageEngineEvent) × Records s.storage_engine.event_types_inv clock
      ctx.captured_events rs
    × (s.storage_engine.captured_events ≡ ctx.store.storage_engine.captured_events ++ rs)
    × (s.storage_engine.captured_snapshots
        ≡ ctx.store.storage_engine.captured_snapshots ++ ctx.snapshots)
Ends clock ctx (err e) s = s ≡ ctx.store
Ends clock ctx (panic m) s = s ≡ ctx.store

module _ (order : List IdNamePair → List IdNamePair) (clock : ℕ → ℕ) (s : EventStore Memory)
    (ctx : Context Memory (Unit {0})) where
  -- A run of WithContext over the in-memory engine, of a callback that leaves the store valid,
  -- ends with the callback's own outcome; after a success everything that the callback captured
  -- is in the log, in order, one record for each event under an id of its event type, and so are
  -- the snapshots; after an error or a panic nothing of it is, and the store is as the callback
  -- left it.
  pub with_context-Ends :
      (exec : M (Context Memory (Unit {0})) (Unit {0})) (outcome : Outcome (Unit {0}))
      → run_in (some tt) exec s ≡ (outcome, ctx)
      → StoreValid ctx.store
      → (s' : EventStore Memory) × (with_context (memory_engine order) clock exec s ≡ (outcome, s'))
        × StoreValid s'
        × Ends clock ctx outcome s'
  unfolding with_context finish
  with_context-Ends exec (ok a) ran v =
      let (rs, s', saved, v', recorded, logged, kept) =
        save_state-Records order (some tt) clock ctx.captured_events ctx.snapshots ctx.store v in
      (s', rw ran (rw saved), v', (rs, recorded, logged, kept))
  with_context-Ends exec (err e) ran v = (ctx.store, rw ran, v, refl)
  with_context-Ends exec (panic m) ran v = (ctx.store, rw ran, v, refl)

  -- A run of InContext over the in-memory engine, of a callback that leaves the store valid, ends
  -- with the callback's own outcome and value, and leaves in the log what WithContext leaves: all
  -- that was captured after a success, nothing of it after an error or a panic.
  pub in_context-Ends :
      {A : Type 0} (exec : M (Context Memory (Unit {0})) A) (outcome : Outcome A)
      → run_in (some tt) exec s ≡ (outcome, ctx)
      → StoreValid ctx.store
      → (s' : EventStore Memory) × (in_context (memory_engine order) clock exec s ≡ (outcome, s'))
        × StoreValid s'
        × Ends clock ctx outcome s'
  unfolding in_context run_begun finish
  in_context-Ends exec (ok a) ran v =
      let (rs, s', saved, v', recorded, logged, kept) =
        save_state-Records order (some tt) clock ctx.captured_events ctx.snapshots ctx.store v in
      (s', rw ran (rw saved), v', (rs, recorded, logged, kept))
  in_context-Ends exec (err e) ran v = (ctx.store, rw ran, v, refl)
  in_context-Ends exec (panic m) ran v = (ctx.store, rw ran, v, refl)
