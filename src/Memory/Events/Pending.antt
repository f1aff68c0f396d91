-- ===== src/Memory/Events/Pending.antt =====
-- `GetEventsForSubscription` against the events that a subscription has still to read.
pub mod Cursor
use mathlib.Core.List.{append-nil, append_assoc}
use evercore.Base.{
  List-cases, ℕ, zero, suc, ◌+◌, ◌-◌, ◌≤◌, ◌<◌, max, String, Bool, true, false, not, ◌&&◌, ◌||◌,
  List, [], ◌∷◌, ◌++◌, Option, none, some, length, ltb, leb, ◌==◌, if◌then◌else◌, with_default,
  nat_eq, string_eq, ◌≡◌, refl, sym, ap, ◌∙◌, ◌≢◌, ◌↔◌, inl, inr, take, drop, Bool-cases,
  length-append, arith,
}
use evercore.Base.Dict.{Dict, lookup}
use evercore.Base.Outcome.{M, ok}
use evercore.Types.{SerializedEvent, StorageEngineEvent, Subscription}
use evercore.Memory.State.{Memory}
use evercore.Subscriptions.Setup.{last_id}
use evercore.Memory.Events.{
  get_events_for_subscription, subscription_loop, serialized, skips, has_event_types,
  other_aggregate_type, other_key, other_event_type, event_type_set,
}

-- Whether an event passes the filter of a subscription, wherever its cursor stands.
unfoldable pub fits : Memory → Subscription → StorageEngineEvent → Bool
unfolding other_aggregate_type other_key other_event_type has_event_types event_type_set
fits store sub e = not (
    other_aggregate_type store sub e
    || (other_key store sub e || other_event_type store sub (has_event_types store sub) e))

-- The log after `idx` events, less what lies at or before the cursor and what the filter drops.
unfoldable pub pending_from :
    Memory → Subscription → ℕ → ℕ → List StorageEngineEvent → List SerializedEvent
unfolding fits serialized
pending_from store sub cursor idx [] = []
pending_from store sub cursor idx (e ∷ es) =
    let rest = pending_from store sub cursor (idx + 1) es in
    if ltb cursor (idx + 1) && fits store sub e then serialized store (idx + 1) e ∷ rest else rest

-- All that a subscription has still to read.
abbrev pub pending : Memory → Subscription → List SerializedEvent
pending store sub = pending_from store sub sub.last_event_id 0 store.captured_events

module _ (store : Memory) (sub : Subscription) where
  skips-fits :
      (id : ℕ) (e : StorageEngineEvent)
      → skips store sub (has_event_types store sub) id e
        ≡ not (ltb sub.last_event_id id && fits store sub e)
  unfolding skips fits
  skips-fits id e = ground arith

  loop-pending :
      (limit room idx : ℕ) (es : List StorageEngineEvent) (results : List SerializedEvent)
      → max 1 limit ≡ length results + suc room
      → subscription_loop store sub (has_event_types store sub) limit idx es results
        ≡ results ++ take (suc room) (pending_from store sub sub.last_event_id idx es)
  unfolding subscription_loop pending_from
  loop-pending limit room idx [] results h = sym (append-nil results)
  loop-pending limit zero idx (e ∷ es) results h =
      elim (Bool-cases (ltb sub.last_event_id (idx + 1) && fits store sub e)) [
        | inr skip ↦
            rw (skips-fits (idx + 1) e, skip) (loop-pending limit zero (idx + 1) es results h)
        | inl keep ↦
            rw (skips-fits (idx + 1) e, keep)
              (ground (arith, length-append results (serialized store (idx + 1) e ∷ [])))
      ]
  loop-pending limit (suc room) idx (e ∷ es) results h =
      elim (Bool-cases (ltb sub.last_event_id (idx + 1) && fits store sub e)) [
        | inr skip ↦
            rw (skips-fits (idx + 1) e, skip) (loop-pending limit (suc room) (idx + 1) es results h)
        | inl keep ↦
            let x = serialized store (idx + 1) e in
            let len : length (results ++ x ∷ []) ≡ length results + 1 =
              length-append results (x ∷ []) in
            let full : leb limit (length (results ++ x ∷ [])) ≡ false = ground arith in
            rw (skips-fits (idx + 1) e, keep, full)
              (loop-pending limit room (idx + 1) es (results ++ x ∷ []) (omega arith)
                ∙ append_assoc results (x ∷ []) _)
      ]

-- One read of a subscription returns the first of its pending events (the log after its cursor,
-- less what its filter drops), as many as the limit allows and at least one, and changes nothing.
pub get_events_for_subscription-pending :
    (sub : Subscription) (limit : ℕ) (store : Memory)
    → get_events_for_subscription sub limit store
      ≡ (ok (take (max 1 limit) (pending store sub)), store)
unfolding get_events_for_subscription
get_events_for_subscription-pending sub limit store =
    let e : max 1 limit ≡ suc (max 1 limit - 1) = omega arith in
    rw e (
      ap (λ r. (ok r, store))
        (loop-pending store sub limit (max 1 limit - 1) 0 store.captured_events [] (omega arith)))
