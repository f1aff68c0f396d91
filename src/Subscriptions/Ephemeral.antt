-- ===== src/Subscriptions/Ephemeral.antt =====
-- `RunEphemeralSubscription` of base/subscriptions.go. The loop is run for a number of rounds and
-- yields the position that it has reached.
pub mod Starts
pub mod Delivery
use evercore.Base.{
  ℕ, zero, suc, ◌-◌, String, Bool, true, false, List, [], ◌∷◌, Option, none, some, ◌==◌, ltb,
  if◌then◌else◌, with_default, keep_if, string_eq, nat_eq, ◌||◌,
}
use evercore.Base.Dict.{Dict, lookup, insert}
use evercore.Base.Outcome.{
  M, ok, ◌>>=◌, ◌>>◌, wrapping, pure, fail, unknown_start_from, context_done,
}
use evercore.Types.{SerializedEvent, Subscription, zero_time}
use evercore.Engine.{StorageEngine}
use evercore.Store.State.{EventStore, engine_call}
use evercore.Subscriptions.Setup.{
  SubscriptionFilter, StartFrom, Options, Environment, Handler, on_store, with_defaults, last_id,
  resolve_aggregate_type, resolve_event_type,
}

-- `multiTypeFilter`, and the events of a batch that it lets through.
abbrev pub type_set : List String → Dict String Bool
type_set [] = []
type_set (t ∷ ts) = insert t true (type_set ts)

unfoldable pub deliverable : Option (List String) → List SerializedEvent → List SerializedEvent
deliverable none events = events
deliverable (some types) events =
    keep_if (λ e. with_default (lookup e.event_type (type_set types)) false) events

-- The subscription that each round asks the engine for.
unfoldable pub ephemeral : Option ℕ → Option ℕ → Option String → ℕ → Subscription
ephemeral agg_type event_type key last = record {
  id = 0;
  name = "";
  aggregate_type_id = agg_type;
  event_type_id = event_type;
  aggregate_key = key;
  start_from = "";
  start_event_id = 0;
  start_timestamp = none;
  last_event_id = last;
  active = true;
  lease_owner = none;
  lease_expires_at = none;
}

module _ {S Tx : Type 0} (engine : StorageEngine S Tx) where
  -- A single event type is left to the engine, more are filtered here.
  resolve_types : List String → M (EventStore S) (Option ℕ × Option (List String))
  resolve_types [] = pure (none, none)
  resolve_types (name ∷ []) = do id ← resolve_event_type engine name; pure (id, none)
  resolve_types (name ∷ name' ∷ names) = pure (none, some (name ∷ name' ∷ names))

  position_from_time : ℕ → M (EventStore S) ℕ
  position_from_time timestamp = do
    first_id ←
        wrapping "init cursor (timestamp)"
          (engine_call (engine.get_first_event_id_from_timestamp timestamp))
    pure (if ltb 0 first_id then first_id - 1 else 0)

  -- `switch start.Kind`
  unfoldable pub first_position : StartFrom → M (EventStore S) ℕ
  unfolding position_from_time
  first_position start =
      if start.kind == "end"
      then wrapping "init cursor (end)" (engine_call engine.get_max_event_id)
      else if start.kind == "event_id"
      then pure (if ltb 0 start.event_id then start.event_id else 0)
      else if start.kind == "timestamp"
      then (if start.timestamp == zero_time then pure 0 else position_from_time start.timestamp)
      else if start.kind == "beginning" || start.kind == ""
      then pure 0
      else fail (unknown_start_from start.kind)

  module _ {H : Type 0} (env : Environment S) (batch_size : ℕ) (handler : Handler S H)
      (agg_type event_type : Option ℕ) (key : Option String) (types : Option (List String)) where
    deliver : List SerializedEvent → M (EventStore S × H) (Unit {0})
    deliver [] = pure tt
    deliver (e ∷ es) = wrapping "handler error" (handler (e ∷ es))

    -- The rest of a round, after the engine's answer.
    handle : ℕ → ℕ → List SerializedEvent → M (EventStore S × H) ℕ
    unfolding deliver
    handle i last [] = if env.is_done_waiting i then fail context_done else pure last
    handle i last (e ∷ es) = do deliver (deliverable types (e ∷ es)); pure (last_id (e ∷ es))

    round : ℕ → ℕ → M (EventStore S × H) ℕ
    unfolding handle
    round i last = if env.is_done i then fail context_done else (do
      events ← wrapping "get events" (
          on_store (
            engine_call (
              engine.get_events_for_subscription (ephemeral agg_type event_type key last)
                batch_size)))
      handle i last events)

    interlude : ℕ → M (EventStore S × H) (Unit {0})
    interlude i s =
        (ok tt, (record (s.0) { storage_engine = env.others i (s.0).storage_engine }, s.1))

    unfoldable pub rounds : ℕ → ℕ → ℕ → M (EventStore S × H) ℕ
    unfolding round interlude
    rounds zero i last = pure last
    rounds (suc n) i last = do interlude i; last' ← round i last; rounds n (suc i) last'

  unfoldable pub run_ephemeral_subscription :
      {H : Type 0}
      → Environment S
      → SubscriptionFilter
      → StartFrom
      → Options
      → Handler S H
      → ℕ
      → M (EventStore S × H) ℕ
  unfolding rounds resolve_types first_position
  run_ephemeral_subscription env filter start opts handler n = do
    agg_type ← on_store (resolve_aggregate_type engine filter.aggregate_type)
    types ← on_store (resolve_types filter.event_types)
    last ← on_store (first_position start)
    rounds env (with_defaults env.host_owner opts).batch_size handler agg_type types.0
        filter.aggregate_key types.1 n 0 last
