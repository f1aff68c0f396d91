-- ===== src/Subscriptions/Durable.antt =====
-- `RunSubscription` of base/subscriptions.go. The loop is run for a number of rounds: `ok` says
-- that it is still running after them, an error that it has returned.
pub mod Reader
pub mod Stops
pub mod Delivery
use evercore.Base.{
  ℕ, zero, suc, ◌-◌, String, Bool, List, [], ◌∷◌, Option, none, some, ◌==◌, ltb, if◌then◌else◌,
  string_eq, nat_eq,
}
use evercore.Base.Outcome.{
  M, Outcome, ok, err, panic, ◌>>=◌, ◌>>◌, wrapping, pure, fail, wrap, subscription_already_owned,
  subscription_inactive, unknown_start_from, context_done,
}
use evercore.Types.{SerializedEvent, Subscription, zero_time}
use evercore.Engine.{StorageEngine}
use evercore.Store.State.{EventStore, engine_call}
use evercore.Subscriptions.Setup.{
  SubscriptionFilter, StartFrom, Options, Environment, Handler, on_store, with_defaults, last_id,
  resolve_aggregate_type, resolve_event_type, resolve_event_types,
}

module _ {S Tx : Type 0} (engine : StorageEngine S Tx) where
  -- The event type of a filter with one, and the event types of a filter with more.
  resolve_filter : List String → M (EventStore S) (Option ℕ × List ℕ)
  resolve_filter [] = pure (none, [])
  resolve_filter (name ∷ []) = do id ← resolve_event_type engine name; pure (id, [])
  resolve_filter (name ∷ name' ∷ names) = do
    ids ← resolve_event_types engine (name ∷ name' ∷ names) []
    pure (none, ids)

  add_event_types : ℕ → List ℕ → M (EventStore S) (Unit {0})
  add_event_types sub_id [] = pure tt
  add_event_types sub_id (id ∷ ids) = do
    wrapping "add subscription event type"
        (engine_call (engine.add_subscription_event_type sub_id id))
    add_event_types sub_id ids

  advance : String → ℕ → ℕ → M (EventStore S) (Unit {0})
  advance label id cursor =
      wrapping label (engine_call (engine.advance_subscription_cursor id cursor))

  start_at_end : Subscription → M (EventStore S) (Unit {0})
  unfolding advance
  start_at_end sub = do
    max_id ← wrapping "init cursor (end)" (engine_call engine.get_max_event_id)
    if ltb 0 max_id then advance "advance cursor (end)" sub.id max_id else pure tt

  start_at_event_id : Subscription → M (EventStore S) (Unit {0})
  unfolding advance
  start_at_event_id sub =
      if ltb 0 sub.start_event_id
      then advance "advance cursor (event_id)" sub.id sub.start_event_id
      else pure tt

  start_at_time : Subscription → ℕ → M (EventStore S) (Unit {0})
  unfolding advance
  start_at_time sub timestamp = do
    first_id ←
        wrapping "init cursor (timestamp)"
          (engine_call (engine.get_first_event_id_from_timestamp timestamp))
    if ltb 0 first_id then advance "advance cursor (timestamp)" sub.id (first_id - 1) else pure tt

  start_at_timestamp : Subscription → M (EventStore S) (Unit {0})
  unfolding start_at_time
  start_at_timestamp sub = elim sub.start_timestamp [
    | none ↦ pure tt
    | some t ↦ if t == zero_time then pure tt else start_at_time sub t
  ]

  -- `switch sub.StartFrom`
  init_cursor : Subscription → M (EventStore S) (Unit {0})
  unfolding start_at_end start_at_event_id start_at_timestamp
  init_cursor sub =
      if sub.start_from == "end"
      then start_at_end sub
      else if sub.start_from == "event_id"
      then start_at_event_id sub
      else if sub.start_from == "timestamp"
      then start_at_timestamp sub
      else if sub.start_from == "beginning"
      then pure tt
      else fail (unknown_start_from sub.start_from)

  init_cursor_if_new : Subscription → M (EventStore S) (Unit {0})
  unfolding init_cursor
  init_cursor_if_new sub = if sub.last_event_id == 0 then init_cursor sub else pure tt

  module _ {H : Type 0} (env : Environment S) (name : String) (opts : Options)
      (handler : Handler S H) where
    renew : ℕ → M (EventStore S × H) Bool
    renew i =
        wrapping "renew lease" (
          on_store (engine_call (engine.renew_subscription name opts.owner opts.lease (env.now i))))

    pub idle : ℕ → M (EventStore S × H) (Unit {0})
    unfolding renew
    idle i = do renew i; if env.is_done_waiting i then fail context_done else pure tt

    pub process : ℕ → Subscription → List SerializedEvent → M (EventStore S × H) (Unit {0})
    unfolding advance renew
    process i sub events = do
      wrapping "handler error" (handler events)
      if ltb sub.last_event_id (last_id events)
          then on_store (advance "advance cursor" sub.id (last_id events))
          else pure tt
      renew i
      pure tt

    pub handle : ℕ → Subscription → List SerializedEvent → M (EventStore S × H) (Unit {0})
    unfolding idle process
    handle i sub [] = idle i
    handle i sub (e ∷ es) = process i sub (e ∷ es)

    -- One round of the loop.
    pub round : ℕ → M (EventStore S × H) (Unit {0})
    unfolding handle
    round i = if env.is_done i then fail context_done else (do
      sub ←
          wrapping "reload subscription"
            (on_store (engine_call (engine.get_subscription_by_name name)))
      if sub.active
          then (do
            events ←
                wrapping "get events"
                  (on_store (engine_call (engine.get_events_for_subscription sub opts.batch_size)))
            handle i sub events)
          else fail (subscription_inactive name))

    -- What other processes do to the store before a round.
    interlude : ℕ → M (EventStore S × H) (Unit {0})
    interlude i s =
        (ok tt, (record (s.0) { storage_engine = env.others i (s.0).storage_engine }, s.1))

    unfoldable pub rounds : ℕ → ℕ → M (EventStore S × H) (Unit {0})
    unfolding round interlude
    rounds zero i = pure tt
    rounds (suc n) i = do interlude i; round i; rounds n (suc i)

    -- The deferred release runs when the loop has returned.
    releasing : Outcome (Unit {0}) × (EventStore S × H) → Outcome (Unit {0}) × (EventStore S × H)
    releasing (ok a, s) = (ok a, s)
    releasing (err e, s) =
        (err e, (on_store (engine_call (engine.release_subscription name opts.owner)) s).1)
    releasing (panic m, s) =
        (panic m, (on_store (engine_call (engine.release_subscription name opts.owner)) s).1)

    run_claimed : ℕ → M (EventStore S × H) (Unit {0})
    unfolding rounds init_cursor_if_new
    run_claimed n = do
      sub ←
          wrapping "load subscription"
            (on_store (engine_call (engine.get_subscription_by_name name)))
      on_store (init_cursor_if_new sub)
      rounds n 0

    unfoldable pub claim_and_run : ℕ → M (EventStore S × H) (Unit {0})
    unfolding run_claimed releasing
    claim_and_run n = do
      claimed ← wrapping "claim subscription" (
          on_store
            (engine_call (engine.claim_subscription name opts.owner opts.lease env.claimed_at)))
      if claimed
          then (λ s. releasing (run_claimed n s))
          else fail (wrap name subscription_already_owned)

  unfoldable pub run_subscription :
      {H : Type 0}
      → Environment S
      → String
      → SubscriptionFilter
      → StartFrom
      → Options
      → Handler S H
      → ℕ
      → M (EventStore S × H) (Unit {0})
  unfolding claim_and_run resolve_filter add_event_types
  run_subscription env name filter start opts handler n = do
    agg_type ← on_store (resolve_aggregate_type engine filter.aggregate_type)
    types ← on_store (resolve_filter filter.event_types)
    sub_id ← wrapping "upsert subscription" (
        on_store (
          engine_call (
            engine.upsert_subscription name agg_type types.0 filter.aggregate_key start.kind
              start.event_id (some start.timestamp))))
    on_store (add_event_types sub_id types.1)
    claim_and_run env name (with_defaults env.host_owner opts) handler n
