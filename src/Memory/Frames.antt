-- ===== src/Memory/Frames.antt =====
-- What the calls of one area leave alone: the state with that area blanked out does not change.
use evercore.Base.{ℕ, String, [], ◌≡◌, refl, subst, sym, arith, nat_eq, string_eq}
use evercore.Memory.State.{Memory}
use evercore.Memory.TypeIds.{get_event_type_id, get_aggregate_type_id}
use evercore.Memory.Aggregates.{
  new_aggregate, new_aggregate_with_key, get_or_create_aggregate_by_key,
  change_aggregate_natural_key,
}
use evercore.Memory.Aggregates.Keys.{KeysValid}
use evercore.Memory.Leases.{
  upsert_subscription, add_subscription_event_type, set_subscription_active, claim_subscription,
  renew_subscription, release_subscription, advance_subscription_cursor,
}
use evercore.Memory.Leases.Exclusion.{
  Call, upserts, adds_event_type, activates, claims, renews, releases, advances, step,
}
use evercore.Memory.Leases.Valid.{SubscriptionsValid}

abbrev pub without_types : Memory → Memory
without_types m = record m {
  aggregate_types = [];
  aggregate_types_inv = [];
  event_types = [];
  event_types_inv = [];
  count_aggregate_type = 0;
  count_event_types = 0;
}

abbrev pub without_aggregates : Memory → Memory
without_aggregates m = record m {
  count_aggregates = 0;
  aggregate_to_type_id = [];
  aggregates = [];
  aggregate_inv = [];
}

abbrev pub without_subscriptions : Memory → Memory
without_subscriptions m = record m {
  subscriptions = [];
  subscription_by_id = [];
  objects = [];
  next_address = 0;
  subscription_event_types = [];
  next_subscription_id = 0;
}

pub get_event_type_id-frame :
    (name : String) (m : Memory) → without_types (get_event_type_id name m).1 ≡ without_types m
unfolding get_event_type_id
get_event_type_id-frame name m = ground arith

pub get_aggregate_type_id-frame :
    (name : String) (m : Memory) → without_types (get_aggregate_type_id name m).1 ≡ without_types m
unfolding get_aggregate_type_id
get_aggregate_type_id-frame name m = ground arith

pub new_aggregate_with_key-frame :
    (t : ℕ) (key : String) (m : Memory)
    → without_aggregates (new_aggregate_with_key t key m).1 ≡ without_aggregates m
unfolding new_aggregate_with_key
new_aggregate_with_key-frame t key m = ground arith

pub get_or_create_aggregate_by_key-frame :
    (t : ℕ) (key : String) (m : Memory)
    → without_aggregates (get_or_create_aggregate_by_key t key m).1 ≡ without_aggregates m
unfolding get_or_create_aggregate_by_key
get_or_create_aggregate_by_key-frame t key m = ground arith

pub new_aggregate-frame :
    (t : ℕ) (m : Memory) → without_aggregates (new_aggregate t m).1 ≡ without_aggregates m
unfolding new_aggregate
new_aggregate-frame t m = refl

pub change_aggregate_natural_key-frame :
    (id : ℕ) (key : String) (m : Memory)
    → without_aggregates (change_aggregate_natural_key id key m).1 ≡ without_aggregates m
unfolding change_aggregate_natural_key
change_aggregate_natural_key-frame id key m = ground arith

pub step-frame :
    (c : Call) (m : Memory) → without_subscriptions (step c m) ≡ without_subscriptions m
unfolding step upsert_subscription add_subscription_event_type set_subscription_active
    claim_subscription renew_subscription release_subscription advance_subscription_cursor
step-frame (upserts name at et key from id ts) m = ground arith
step-frame (adds_event_type id t) m = refl
step-frame (activates id b) m = ground arith
step-frame (claims name o lease now) m = ground arith
step-frame (renews name o lease now) m = ground arith
step-frame (releases name o) m = ground arith
step-frame (advances id c) m = ground arith

-- The invariants of one area carry over where only another area has changed.
module _ (m m' : Memory) where
  pub KeysValid-types : without_types m' ≡ without_types m → KeysValid m → KeysValid m'
  KeysValid-types same v =
      let blank : KeysValid (without_types m) = record {
        keyed = v.keyed;
        numbered = v.numbered;
        typed = v.typed;
      } in
      let w = subst KeysValid (sym same) blank in
      record { keyed = w.keyed; numbered = w.numbered; typed = w.typed }

  pub KeysValid-subscriptions :
      without_subscriptions m' ≡ without_subscriptions m → KeysValid m → KeysValid m'
  KeysValid-subscriptions same v =
      let blank : KeysValid (without_subscriptions m) = record {
        keyed = v.keyed;
        numbered = v.numbered;
        typed = v.typed;
      } in
      let w = subst KeysValid (sym same) blank in
      record { keyed = w.keyed; numbered = w.numbered; typed = w.typed }

  pub SubscriptionsValid-types :
      without_types m' ≡ without_types m → SubscriptionsValid m → SubscriptionsValid m'
  SubscriptionsValid-types same v =
      let blank : SubscriptionsValid (without_types m) = record {
        named = v.named;
        known = v.known;
        by_their_name = v.by_their_name;
        by_their_id = v.by_their_id;
        allocated = v.allocated;
        numbered = v.numbered;
      } in
      let w = subst SubscriptionsValid (sym same) blank in
      record {
        named = w.named;
        known = w.known;
        by_their_name = w.by_their_name;
        by_their_id = w.by_their_id;
        allocated = w.allocated;
        numbered = w.numbered;
      }

  pub SubscriptionsValid-aggregates :
      without_aggregates m' ≡ without_aggregates m → SubscriptionsValid m → SubscriptionsValid m'
  SubscriptionsValid-aggregates same v =
      let blank : SubscriptionsValid (without_aggregates m) = record {
        named = v.named;
        known = v.known;
        by_their_name = v.by_their_name;
        by_their_id = v.by_their_id;
        allocated = v.allocated;
        numbered = v.numbered;
      } in
      let w = subst SubscriptionsValid (sym same) blank in
      record {
        named = w.named;
        known = w.known;
        by_their_name = w.by_their_name;
        by_their_id = w.by_their_id;
        allocated = w.allocated;
        numbered = w.numbered;
      }
