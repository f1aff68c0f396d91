-- ===== src/Subscriptions/Ephemeral/Starts.antt =====
-- Where a start at a timestamp begins to read the log of the in-memory engine.
use evercore.Base.{ℕ, List, ◌≡◌, ◌≢◌, ◌⊎◌, refl, inl, inr, arith, All, nat_eq, string_eq, ==_ne}
use evercore.Base.Outcome.{ok}
use evercore.Types.{IdNamePair}
use evercore.Memory.State.{Memory}
use evercore.Memory.Engine.{memory_engine}
use evercore.Memory.Events.First.{
  IsEarly, StandsAfter, get_first_event_id_from_timestamp-StandsAfter,
}
use evercore.Store.State.{EventStore}
use evercore.Subscriptions.Setup.{StartFrom}
use evercore.Subscriptions.Ephemeral.{first_position, position_from_time}

module _ (order : List IdNamePair → List IdNamePair) (start : StartFrom)
    (s : EventStore Memory) where
  -- A start of an ephemeral runner at a timestamp that is not zero, over the in-memory engine: if
  -- some event is not before the timestamp, the runner begins right before the first such event,
  -- after all that are; if every event is before it, the runner begins at the start of the log,
  -- before all of them.
  pub first_position-timestamp :
      start.kind ≡ "timestamp"
      → start.timestamp ≢ 0
      → (p : ℕ) × (first_position (memory_engine order) start s ≡ (ok p, s))
        × (StandsAfter start.timestamp p s.storage_engine.captured_events
            ⊎ (All (IsEarly start.timestamp) s.storage_engine.captured_events × (p ≡ 0)))
  unfolding first_position position_from_time
  first_position-timestamp kind set =
      elim (get_first_event_id_from_timestamp-StandsAfter start.timestamp s.storage_engine) [
        | inl (all, e) ↦ (0, rw kind (rw (==_ne start.timestamp 0 set) (rw e)), inr (all, refl))
        | inr (k, e, found) ↦
            (k, rw kind (rw (==_ne start.timestamp 0 set) (rw e (ground arith))), inl found)
      ]
