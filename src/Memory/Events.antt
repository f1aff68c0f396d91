-- ===== src/Memory/Events.antt =====
-- Events and snapshots, from base/memory.go: `WriteState`, `GetEventsForAggregate`,
-- `GetSnapshotForAggregate`, `GetEventsForSubscription`, `GetMaxEventId`,
-- `GetFirstEventIdFromTimestamp`.
pub mod Pending
pub mod First
use mathlib.Core.List.{reverse}
use evercore.Base.{
  ℕ, ◌+◌, Bool, true, false, not, ◌&&◌, ◌||◌, List, [], ◌∷◌, ◌++◌, Option, none, some, length, ltb,
  leb, ◌==◌, if◌then◌else◌, with_default, nat_eq, string_eq,
}
use evercore.Base.Dict.{Dict, lookup}
use evercore.Base.Outcome.{M, ok}
use evercore.Types.{SerializedEvent, StorageEngineEvent, Snapshot, Subscription}
use evercore.Memory.State.{Memory}

unfoldable pub write_state : List StorageEngineEvent → List Snapshot → M Memory (Unit {0})
write_state events snapshots store = (
  ok tt,
  record store {
    captured_events = store.captured_events ++ events;
    captured_snapshots = store.captured_snapshots ++ snapshots;
  },
)

-- The loop from the last snapshot down to the first, over the reversed slice.
snapshot_loop : ℕ → List Snapshot → Option Snapshot
snapshot_loop aggregate_id [] = none
snapshot_loop aggregate_id (s ∷ ss) =
    if s.aggregate_id == aggregate_id then some s else snapshot_loop aggregate_id ss

unfoldable pub get_snapshot_for_aggregate : ℕ → M Memory (Option Snapshot)
unfolding snapshot_loop
get_snapshot_for_aggregate aggregate_id store =
    (ok (snapshot_loop aggregate_id (reverse store.captured_snapshots)), store)

-- The event as it is read back; its id is 0 where it is read by aggregate.
unfoldable pub serialized : Memory → ℕ → StorageEngineEvent → SerializedEvent
serialized store id e = record {
  event_id = id;
  aggregate_id = e.aggregate_id;
  event_type = with_default (lookup e.event_type_id store.event_types_inv) "";
  state = e.state;
  sequence = e.sequence;
  reference = e.reference;
  event_time = e.event_time;
}

aggregate_loop :
    Memory → ℕ → ℕ → List StorageEngineEvent → List SerializedEvent → List SerializedEvent
aggregate_loop store aggregate_id after_sequence [] found = found
aggregate_loop store aggregate_id after_sequence (e ∷ es) found =
    aggregate_loop store aggregate_id after_sequence es (
      if e.aggregate_id == aggregate_id && ltb after_sequence e.sequence
      then found ++ serialized store 0 (record e { aggregate_id = aggregate_id }) ∷ []
      else found)

unfoldable pub get_events_for_aggregate : ℕ → ℕ → M Memory (List SerializedEvent)
unfolding aggregate_loop serialized
get_events_for_aggregate aggregate_id after_sequence store =
    (ok (aggregate_loop store aggregate_id after_sequence store.captured_events []), store)

-- The tests under which the loop of `GetEventsForSubscription` continues with the next event.
unfoldable pub other_aggregate_type : Memory → Subscription → StorageEngineEvent → Bool
other_aggregate_type store sub e = elim sub.aggregate_type_id [
  | none ↦ false
  | some t ↦ not (with_default (lookup e.aggregate_id store.aggregate_to_type_id) 0 == t)
]

unfoldable pub other_key : Memory → Subscription → StorageEngineEvent → Bool
other_key store sub e = elim sub.aggregate_key [
  | none ↦ false
  | some wanted ↦ elim (lookup e.aggregate_id store.aggregate_inv) [
    | none ↦ true
    | some none ↦ true
    | some (some key) ↦ not (key == wanted)
  ]
]

-- The event types that a subscription listens to, if any were added for it.
unfoldable pub event_type_set : Memory → Subscription → Dict ℕ Bool
event_type_set store sub = with_default (lookup sub.id store.subscription_event_types) []

unfoldable pub other_event_type : Memory → Subscription → Bool → StorageEngineEvent → Bool
other_event_type store sub have_multi e =
    if have_multi
    then not (with_default (lookup e.event_type_id (event_type_set store sub)) false)
    else elim sub.event_type_id [ none ↦ false | some t ↦ not (e.event_type_id == t) ]

skips : Memory → Subscription → Bool → ℕ → StorageEngineEvent → Bool
unfolding other_aggregate_type other_key other_event_type event_type_set
skips store sub have_multi id e =
    leb id sub.last_event_id
    || (other_aggregate_type store sub e
        || (other_key store sub e || other_event_type store sub have_multi e))

-- The loop: `idx` events lie behind it, and `results` is what it has so far.
subscription_loop :
    Memory
    → Subscription
    → Bool
    → ℕ
    → ℕ
    → List StorageEngineEvent
    → List SerializedEvent
    → List SerializedEvent
subscription_loop store sub have_multi limit idx [] results = results
subscription_loop store sub have_multi limit idx (e ∷ es) results =
    let continue = subscription_loop store sub have_multi limit (idx + 1) es results in
    let results' = results ++ serialized store (idx + 1) e ∷ [] in
    let next = subscription_loop store sub have_multi limit (idx + 1) es results' in
    if skips store sub have_multi (idx + 1) e
    then continue
    else if leb limit (length results')
    then results'
    else next

-- `haveMulti`
unfoldable pub has_event_types : Memory → Subscription → Bool
unfolding event_type_set
has_event_types store sub = ltb 0 (length (event_type_set store sub))

unfoldable pub get_events_for_subscription : Subscription → ℕ → M Memory (List SerializedEvent)
unfolding subscription_loop has_event_types serialized skips
get_events_for_subscription sub limit store = (
  ok (subscription_loop store sub (has_event_types store sub) limit 0 store.captured_events []),
  store,
)

unfoldable pub get_max_event_id : M Memory ℕ
get_max_event_id store = (ok (length store.captured_events), store)

first_from : ℕ → ℕ → List StorageEngineEvent → ℕ
first_from ts idx [] = 0
first_from ts idx (e ∷ es) =
    let rest = first_from ts (idx + 1) es in
    if ltb ts e.event_time || e.event_time == ts then idx + 1 else rest

unfoldable pub get_first_event_id_from_timestamp : ℕ → M Memory ℕ
unfolding first_from
get_first_event_id_from_timestamp ts store = (ok (first_from ts 0 store.captured_events), store)
