-- ===== src/Subscriptions/Durable/Reader.antt =====
-- What a durable runner needs of an engine, as an interface, and what the runner then delivers.
pub mod Rounds
use evercore.Base.{
  ℕ, ◌+◌, ◌<◌, suc, String, true, false, List, [], ◌++◌, some, ◌≡◌, ◌≢◌, take, drop, Bool,
}
use evercore.Base.Outcome.{ok}
use evercore.Types.{SerializedEvent, Subscription}
use evercore.Engine.{StorageEngine}
use evercore.Subscriptions.Setup.{Environment, Handler, last_id}

-- The engine reads, renews and advances a subscription that its owner holds. `batch` is how many
-- events one read with a limit returns at most.
pub record Reader {S Tx : Type 0} (engine : StorageEngine S Tx) (name owner : String)
    (Owned : S → Subscription → Type 0) (pending : S → Subscription → List SerializedEvent)
    (batch : ℕ → ℕ) : Type 0 where
  pub active : (s : S) (sub : Subscription) → Owned s sub → sub.active ≡ true
  pub loads :
      (s : S) (sub : Subscription)
      → Owned s sub
      → engine.get_subscription_by_name name s ≡ (ok sub, s)
  pub reads :
      (s : S) (sub : Subscription) (limit : ℕ)
      → Owned s sub
      → engine.get_events_for_subscription sub limit s
        ≡ (ok (take (batch limit) (pending s sub)), s)
  pub renews :
      (s : S) (sub : Subscription) (lease now : ℕ)
      → Owned s sub
      → let sub' = record sub { lease_expires_at = some (now + lease) } in
        (s' : S) × (b : Bool) × (engine.renew_subscription name owner lease now s ≡ (ok b, s'))
        × Owned s' sub'
        × (pending s' sub' ≡ pending s sub)
  -- The end of a batch lies beyond the cursor, and once the cursor is there the rest is pending.
  pub advances :
      (s : S) (sub : Subscription) (k : ℕ)
      → Owned s sub
      → pending s sub ≢ []
      → let last = last_id (take (suc k) (pending s sub)) in
        let sub' = record sub { last_event_id = last } in
        (s' : S) × (sub.last_event_id < last)
        × (engine.advance_subscription_cursor sub.id last s ≡ (ok tt, s'))
        × Owned s' sub'
        × (pending s' sub' ≡ drop (suc k) (pending s sub))

-- Nobody cancels the run, and nobody else writes to the store.
pub record IsQuiet {S : Type 0} (env : Environment S) : Type 0 where
  pub not_done : (i : ℕ) → env.is_done i ≡ false
  pub not_done_waiting : (i : ℕ) → env.is_done_waiting i ≡ false
  pub no_others : (i : ℕ) (s : S) → env.others i s ≡ s

-- A handler that keeps what it is given, in order.
abbrev pub record_events : {S : Type 0} → Handler S (List SerializedEvent)
record_events events s = (ok tt, (s.0, s.1 ++ events))
