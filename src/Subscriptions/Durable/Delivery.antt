-- ===== src/Subscriptions/Durable/Delivery.antt =====
-- What a durable runner delivers over the in-memory engine while nobody else acts.
use evercore.Base.{
  ℕ, suc, ◌+◌, ◌-◌, ◌*◌, max, String, true, List, ◌++◌, some, ◌≡◌, ◌∙◌, refl, arith, take, drop,
}
use evercore.Base.Outcome.{ok}
use evercore.Types.{IdNamePair, SerializedEvent, Subscription}
use evercore.Memory.State.{Memory}
use evercore.Memory.Engine.{memory_engine}
use evercore.Memory.Leases.{put}
use evercore.Memory.Leases.Objects.{
  Holds, put-Holds, get_subscription_by_name-Holds, advance_subscription_cursor-Holds,
  renew_subscription-Holds,
}
use evercore.Memory.Events.Pending.Cursor.{cursor-last_id, pending_from-drop, pending_from-put}
use evercore.Memory.Events.Pending.{pending, get_events_for_subscription-pending}
use evercore.Store.State.{EventStore}
use evercore.Subscriptions.Setup.{Environment, Options, last_id}
use evercore.Subscriptions.Durable.{rounds}
use evercore.Subscriptions.Durable.Reader.{Reader, IsQuiet, record_events}
use evercore.Subscriptions.Durable.Reader.Rounds.{rounds_lem}

-- The runner's own subscription, with its lease.
pub record Owns (name owner : String) (p : ℕ) (m : Memory) (sub : Subscription) : Type 0 where
  pub held : Holds m name p sub
  pub active : sub.active ≡ true
  pub owned : sub.lease_owner ≡ some owner

module _ (order : List IdNamePair → List IdNamePair) (name owner : String) (p : ℕ) where
  put-Owns :
      (m : Memory) (sub sub' : Subscription)
      → Owns name owner p m sub
      → sub'.id ≡ sub.id
      → sub'.active ≡ sub.active
      → sub'.lease_owner ≡ sub.lease_owner
      → Owns name owner p (put p sub' m) sub'
  put-Owns m sub sub' o same active owned = record {
    held = put-Holds m name p sub o.held sub' same;
    active = active ∙ o.active;
    owned = owned ∙ o.owned;
  }

  -- The in-memory engine reads a subscription by its pending events.
  pub memory-Reader : Reader (memory_engine order) name owner (Owns name owner p) pending (max 1)
  memory-Reader = record {
    active = λ m sub o. o.active;
    loads = λ m sub o. get_subscription_by_name-Holds m name p sub o.held;
    reads = λ m sub limit o. get_events_for_subscription-pending sub limit m;
    renews = λ m sub lease now o.
        let sub' : Subscription = record sub { lease_expires_at = some (now + lease) } in
        (
          put p sub' m,
          true,
          renew_subscription-Holds m name p sub o.held owner lease now o.active o.owned,
          put-Owns m sub sub' o refl refl refl,
          pending_from-put m sub sub' p sub.last_event_id sub.last_event_id 0 sub'.lease_expires_at
              _,
        );
    advances = λ m sub k o more.
        let last = last_id (take (suc k) (pending m sub)) in
        let sub' : Subscription = record sub { last_event_id = last } in
        (
          put p sub' m,
          cursor-last_id m sub sub.last_event_id 0 k _ more,
          advance_subscription_cursor-Holds m name p sub o.held last,
          put-Owns m sub sub' o refl refl refl,
          pending_from-put m sub sub' p last last 0 sub.lease_expires_at _
              ∙ pending_from-drop m sub sub.last_event_id 0 k _ more,
        );
  }

module _ (order : List IdNamePair → List IdNamePair) (env : Environment Memory) (name : String)
    (opts : Options) (quiet : IsQuiet env) where
  batch_positive : max 1 opts.batch_size ≡ suc (max 1 opts.batch_size - 1)
  batch_positive = omega arith

  -- A durable runner that holds its subscription, over the in-memory engine, which nobody cancels
  -- and beside which nobody writes, is still running after n rounds; a handler that keeps what it
  -- is given then has the first n batches of what was pending, in log order and each event once,
  -- and exactly the rest is still pending.
  pub rounds-deliver :
      (n i p : ℕ) (s : EventStore Memory) (sub : Subscription) (seen : List SerializedEvent)
      → Owns name opts.owner p s.storage_engine sub
      → let left = pending s.storage_engine sub in
        let reached = n * max 1 opts.batch_size in
        (s' : EventStore Memory) × (sub' : Subscription) × (rounds
            (memory_engine order)
            env
            name
            opts
            record_events
            n
            i
            (s, seen)
          ≡ (ok tt, (s', seen ++ take reached left)))
        × Owns name opts.owner p s'.storage_engine sub'
        × (pending s'.storage_engine sub' ≡ drop reached left)
  rounds-deliver n i p s sub seen o = rw batch_positive (
      rounds_lem (memory_engine order) env name opts quiet (Owns name opts.owner p) pending (max 1)
        (memory-Reader order name opts.owner p) (max 1 opts.batch_size - 1) batch_positive n i s sub
        seen o)
