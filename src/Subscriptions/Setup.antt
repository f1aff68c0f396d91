-- ===== src/Subscriptions/Setup.antt =====
-- What `RunSubscription` and `RunEphemeralSubscription` do before their loops: the options, and
-- the type ids of the filter. The world around a run is given by an `Environment`.
use evercore.Base.{
  ℕ, String, Bool, List, [], ◌∷◌, ◌++◌, Option, none, some, ◌==◌, ltb, if◌then◌else◌, nat_eq,
  string_eq,
}
use evercore.Base.Outcome.{M, ◌>>=◌, wrapping, pure}
use evercore.Types.{SerializedEvent}
use evercore.Engine.{StorageEngine}
use evercore.Store.State.{EventStore}
use evercore.Store.Types.{get_aggregate_type_id, get_event_type_id}

pub record SubscriptionFilter : Type 0 where
  pub aggregate_type : String
  pub event_types : List String
  pub aggregate_key : Option String

pub record StartFrom : Type 0 where
  pub kind : String
  pub event_id : ℕ
  pub timestamp : ℕ

pub record Options : Type 0 where
  pub batch_size : ℕ
  pub poll_interval : ℕ
  pub lease : ℕ
  pub owner : String

-- What a run meets outside the store: the clock at the claim and at the start of each round,
-- whether the caller's context is done at the head of a round or while it waits, what other
-- processes do to the store before a round, and the name that the host gives an owner.
pub record Environment (S : Type 0) : Type 0 where
  pub claimed_at : ℕ
  pub now : ℕ → ℕ
  pub is_done : ℕ → Bool
  pub is_done_waiting : ℕ → Bool
  pub others : ℕ → S → S
  pub host_owner : String

-- A handler works on the store, to which it may write, and on a state of its own.
abbrev pub Handler : Type 0 → Type 0 → Type 0
Handler S H = List SerializedEvent → M (EventStore S × H) (Unit {0})

abbrev pub on_store : {S H A : Type 0} → M (EventStore S) A → M (EventStore S × H) A
on_store m s = let r = m s.0 in (r.0, (r.1, s.1))

-- Defaults, in ticks of a nanosecond.
unfoldable pub with_defaults : String → Options → Options
with_defaults host_owner opts = record {
  batch_size = if ltb 0 opts.batch_size then opts.batch_size else 100;
  poll_interval = if ltb 0 opts.poll_interval then opts.poll_interval else 500_000_000;
  lease = if ltb 0 opts.lease then opts.lease else 15_000_000_000;
  owner = if opts.owner == "" then host_owner else opts.owner;
}

-- `events[len(events)-1].EventID`, of a batch that is not empty.
unfoldable pub last_id : List SerializedEvent → ℕ
last_id [] = 0
last_id (e ∷ []) = e.event_id
last_id (e ∷ e' ∷ es) = last_id (e' ∷ es)

module _ {S Tx : Type 0} (engine : StorageEngine S Tx) where
  unfoldable pub resolve_aggregate_type : String → M (EventStore S) (Option ℕ)
  resolve_aggregate_type name = if name == "" then pure none else (do
    id ← wrapping "resolve aggregate type" (get_aggregate_type_id engine none name)
    pure (some id))

  unfoldable pub resolve_event_type : String → M (EventStore S) (Option ℕ)
  resolve_event_type name = do
    id ← wrapping "resolve event type" (get_event_type_id engine none name)
    pure (some id)

  unfoldable pub resolve_event_types : List String → List ℕ → M (EventStore S) (List ℕ)
  resolve_event_types [] ids = pure ids
  resolve_event_types (name ∷ names) ids = do
    id ← wrapping "resolve event type" (get_event_type_id engine none name)
    resolve_event_types names (ids ++ id ∷ [])
