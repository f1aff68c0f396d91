-- ===== src/Memory/Leases.antt =====
-- Subscriptions, leases and cursors, from base/memory.go. The clock's reading is an argument.
pub mod Exclusion
pub mod Objects
pub mod Valid
use evercore.Base.{
  ℕ, ◌+◌, String, Bool, true, false, not, ◌||◌, [], Option, none, some, ltb, ◌==◌, if◌then◌else◌,
  with_default, nat_eq, string_eq,
}
use evercore.Base.Dict.{lookup, insert}
use evercore.Base.Outcome.{M, ok, err, subscription_not_found}
use evercore.Types.{Subscription}
use evercore.Memory.State.{Memory}

-- The object that a map's pointer leads to.
unfoldable pub by_name : Memory → String → Option (ℕ × Subscription)
by_name store name = elim (lookup name store.subscriptions) [
  | none ↦ none
  | some p ↦ elim (lookup p store.objects) [ none ↦ none | some s ↦ some (p, s) ]
]

unfoldable pub by_id : Memory → ℕ → Option (ℕ × Subscription)
by_id store id = elim (lookup id store.subscription_by_id) [
  | none ↦ none
  | some p ↦ elim (lookup p store.objects) [ none ↦ none | some s ↦ some (p, s) ]
]

-- A write through a pointer.
abbrev pub put : ℕ → Subscription → Memory → Memory
put p s store = record store { objects = insert p s store.objects }

unfoldable pub upsert_subscription :
    String → Option ℕ → Option ℕ → Option String → String → ℕ → Option ℕ → M Memory ℕ
unfolding by_name
upsert_subscription name agg_type event_type agg_key start_from start_event_id start_timestamp
      store =
    elim (by_name store name) [
      | some (p, s) ↦ (
        ok s.id,
        put p
            (record s {
              aggregate_type_id = agg_type;
              event_type_id = event_type;
              aggregate_key = agg_key;
              start_from = start_from;
              start_event_id = start_event_id;
              start_timestamp = start_timestamp;
            })
            store,
      )
      | none ↦
          let id = store.next_subscription_id + 1 in
          let sub : Subscription = record {
            id = id;
            name = name;
            aggregate_type_id = agg_type;
            event_type_id = event_type;
            aggregate_key = agg_key;
            start_from = start_from;
            start_event_id = start_event_id;
            start_timestamp = start_timestamp;
            last_event_id = 0;
            active = true;
            lease_owner = none;
            lease_expires_at = none;
          } in
          (
            ok id,
            record store {
              next_subscription_id = id;
              next_address = store.next_address + 1;
              objects = insert store.next_address sub store.objects;
              subscriptions = insert name store.next_address store.subscriptions;
              subscription_by_id = insert id store.next_address store.subscription_by_id;
            },
          )
    ]

unfoldable pub add_subscription_event_type : ℕ → ℕ → M Memory (Unit {0})
add_subscription_event_type subscription_id event_type_id store =
    let set = with_default (lookup subscription_id store.subscription_event_types) [] in
    (
      ok tt,
      record store {
        subscription_event_types =
            insert subscription_id (insert event_type_id true set) store.subscription_event_types;
      },
    )

unfoldable pub get_subscription_by_name : String → M Memory Subscription
unfolding by_name
get_subscription_by_name name store = elim (by_name store name) [
  | none ↦ (err subscription_not_found, store)
  | some (p, s) ↦ (ok s, store)
]

unfoldable pub set_subscription_active : ℕ → Bool → M Memory (Unit {0})
unfolding by_id
set_subscription_active id active store = elim (by_id store id) [
  | none ↦ (err subscription_not_found, store)
  | some (p, s) ↦ (ok tt, put p (record s { active = active }) store)
]

-- `s.LeaseOwner == nil || s.LeaseExpiresAt == nil || s.LeaseExpiresAt.Before(now)`
unfoldable pub is_free : Subscription → ℕ → Bool
is_free s now = elim s.lease_owner [
  | none ↦ true
  | some _ ↦ elim s.lease_expires_at [ none ↦ true | some exp ↦ ltb exp now ]
]

-- `s.LeaseOwner != nil && *s.LeaseOwner == owner`
unfoldable pub is_owner : Subscription → String → Bool
is_owner s owner = elim s.lease_owner [ none ↦ false | some o ↦ o == owner ]

unfoldable pub claim_subscription : String → String → ℕ → ℕ → M Memory Bool
unfolding by_name is_free
claim_subscription name owner lease now store = elim (by_name store name) [
  | none ↦ (ok false, store)
  | some (p, s) ↦
      if not s.active
      then (ok false, store)
      else if is_free s now
      then (
        ok true,
        put p (record s { lease_owner = some owner; lease_expires_at = some (now + lease) }) store,
      )
      else (ok false, store)
]

unfoldable pub renew_subscription : String → String → ℕ → ℕ → M Memory Bool
unfolding by_name is_owner
renew_subscription name owner lease now store = elim (by_name store name) [
  | none ↦ (ok false, store)
  | some (p, s) ↦
      if not s.active || not (is_owner s owner)
      then (ok false, store)
      else (ok true, put p (record s { lease_expires_at = some (now + lease) }) store)
]

unfoldable pub release_subscription : String → String → M Memory (Unit {0})
unfolding by_name is_owner
release_subscription name owner store = elim (by_name store name) [
  | none ↦ (ok tt, store)
  | some (p, s) ↦
      if not (is_owner s owner)
      then (ok tt, store)
      else (ok tt, put p (record s { lease_owner = none; lease_expires_at = none }) store)
]

unfoldable pub advance_subscription_cursor : ℕ → ℕ → M Memory (Unit {0})
unfolding by_id
advance_subscription_cursor id last_event_id store = elim (by_id store id) [
  | none ↦ (err subscription_not_found, store)
  | some (p, s) ↦ (ok tt, put p (record s { last_event_id = last_event_id }) store)
]
