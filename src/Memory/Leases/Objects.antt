-- ===== src/Memory/Leases/Objects.antt =====
-- Subscriptions as shared objects: what each call does to the object that a name leads to.
use evercore.Base.{ℕ, ◌+◌, String, true, some, ◌≡◌, arith, nat_eq, string_eq, ==_refl}
use evercore.Base.Dict.{lookup, lookup-insert_self}
use evercore.Base.Outcome.{ok}
use evercore.Types.{Subscription}
use evercore.Memory.State.{Memory}
use evercore.Memory.Leases.{
  by_name, by_id, put, get_subscription_by_name, advance_subscription_cursor, renew_subscription,
  is_owner,
}

-- The name leads to the object at an address, and so does the object's id.
pub record Holds (store : Memory) (name : String) (p : ℕ) (s : Subscription) : Type 0 where
  pub named : lookup name store.subscriptions ≡ some p
  pub stored : lookup p store.objects ≡ some s
  pub known : lookup s.id store.subscription_by_id ≡ some p

module _ (store : Memory) (name : String) (p : ℕ) (s : Subscription)
    (h : Holds store name p s) where
  by_name-Holds : by_name store name ≡ some (p, s)
  unfolding by_name
  by_name-Holds = ground arith

  by_id-Holds : by_id store s.id ≡ some (p, s)
  unfolding by_id
  by_id-Holds = ground arith

  -- A write through the pointer is seen by the name and by the id.
  pub put-Holds : (s' : Subscription) → s'.id ≡ s.id → Holds (put p s' store) name p s'
  put-Holds s' same = record {
    named = h.named;
    stored = lookup-insert_self p s' store.objects;
    known = rw same h.known;
  }

  pub get_subscription_by_name-Holds : get_subscription_by_name name store ≡ (ok s, store)
  unfolding get_subscription_by_name
  get_subscription_by_name-Holds = rw (by_name-Holds, get_subscription_by_name)

  pub advance_subscription_cursor-Holds :
      (cursor : ℕ)
      → advance_subscription_cursor s.id cursor store
        ≡ (ok tt, put p (record s { last_event_id = cursor }) store)
  unfolding advance_subscription_cursor
  advance_subscription_cursor-Holds cursor = rw (by_id-Holds, advance_subscription_cursor)

  pub renew_subscription-Holds :
      (owner : String) (lease now : ℕ)
      → s.active ≡ true
      → s.lease_owner ≡ some owner
      → renew_subscription name owner lease now store
        ≡ (ok true, put p (record s { lease_expires_at = some (now + lease) }) store)
  unfolding renew_subscription is_owner
  renew_subscription-Holds owner lease now active owned =
      ground (arith, by_name-Holds, ==_refl owner)

module _ (m : Memory) (q : ℕ) (s : Subscription) where
  pub by_name-named :
      (name : String) → by_name m name ≡ some (q, s) → lookup name m.subscriptions ≡ some q
  unfolding by_name
  by_name-named name h = ground arith

  pub by_name-stored : (name : String) → by_name m name ≡ some (q, s) → lookup q m.objects ≡ some s
  unfolding by_name
  by_name-stored name h = ground arith

  pub by_id-stored : (id : ℕ) → by_id m id ≡ some (q, s) → lookup q m.objects ≡ some s
  unfolding by_id
  by_id-stored id h = ground arith
