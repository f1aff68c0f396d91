-- ===== src/Memory/Leases/Valid/Calls.antt =====
-- Every call about subscriptions keeps the maps and the objects in step.
use evercore.Base.{
  ℕ, String, Bool, not, ◌||◌, Option, none, ◌≡◌, refl, inl, inr, arith, nat_eq, string_eq,
  Option-cases, Bool-cases,
}
use evercore.Base.Dict.{lookup}
use evercore.Memory.State.{Memory}
use evercore.Memory.Leases.Objects.{by_name-stored, by_id-stored}
use evercore.Memory.Leases.Exclusion.{
  Call, upserts, adds_event_type, activates, claims, renews, releases, advances, step,
}
use evercore.Memory.Leases.{
  by_name, by_id, upsert_subscription, add_subscription_event_type, set_subscription_active,
  claim_subscription, renew_subscription, release_subscription, advance_subscription_cursor,
  is_owner, is_free,
}
use evercore.Memory.Leases.Valid.{SubscriptionsValid, put-SubscriptionsValid}
use evercore.Memory.Leases.Valid.Allocate.{allocate-SubscriptionsValid}

module _ (m : Memory) (v : SubscriptionsValid m) where
  claim-Valid :
      (name o : String) (lease now : ℕ)
      → SubscriptionsValid (claim_subscription name o lease now m).1
  unfolding claim_subscription
  claim-Valid name o lease now = elim (Option-cases (by_name m name)) [
    | inl e ↦ rw (e, claim_subscription) v
    | inr ((q, s), e) ↦
        rw (e, claim_subscription)
          (elim (Bool-cases (not s.active)) [
            | inl off ↦ rw off v
            | inr on ↦ rw on (elim (Bool-cases (is_free s now)) [
              | inr taken ↦ rw taken v
              | inl free ↦
                  rw free (put-SubscriptionsValid m v q s _ (by_name-stored m q s name e) refl refl)
            ])
          ])
  ]

  renew-Valid :
      (name o : String) (lease now : ℕ)
      → SubscriptionsValid (renew_subscription name o lease now m).1
  unfolding renew_subscription
  renew-Valid name o lease now = elim (Option-cases (by_name m name)) [
    | inl e ↦ rw (e, renew_subscription) v
    | inr ((q, s), e) ↦
        rw (e, renew_subscription)
          (elim (Bool-cases (not s.active || not (is_owner s o))) [
            | inl off ↦ rw off v
            | inr own ↦
                rw own (put-SubscriptionsValid m v q s _ (by_name-stored m q s name e) refl refl)
          ])
  ]

  release-Valid : (name o : String) → SubscriptionsValid (release_subscription name o m).1
  unfolding release_subscription
  release-Valid name o = elim (Option-cases (by_name m name)) [
    | inl e ↦ rw (e, release_subscription) v
    | inr ((q, s), e) ↦
        rw (e, release_subscription)
          (elim (Bool-cases (not (is_owner s o))) [
            | inl off ↦ rw off v
            | inr own ↦
                rw own (put-SubscriptionsValid m v q s _ (by_name-stored m q s name e) refl refl)
          ])
  ]

  activate-Valid : (id : ℕ) (b : Bool) → SubscriptionsValid (set_subscription_active id b m).1
  unfolding set_subscription_active
  activate-Valid id b = elim (Option-cases (by_id m id)) [
    | inl e ↦ rw (e, set_subscription_active) v
    | inr ((q, s), e) ↦
        rw (e, set_subscription_active)
          (put-SubscriptionsValid m v q s _ (by_id-stored m q s id e) refl refl)
  ]

  advance-Valid : (id c : ℕ) → SubscriptionsValid (advance_subscription_cursor id c m).1
  unfolding advance_subscription_cursor
  advance-Valid id c = elim (Option-cases (by_id m id)) [
    | inl e ↦ rw (e, advance_subscription_cursor) v
    | inr ((q, s), e) ↦
        rw (e, advance_subscription_cursor)
          (put-SubscriptionsValid m v q s _ (by_id-stored m q s id e) refl refl)
  ]

  -- No name dangles.
  by_name-named_valid : (name : String) → by_name m name ≡ none → lookup name m.subscriptions ≡ none
  unfolding by_name
  by_name-named_valid name e = elim (Option-cases (lookup name m.subscriptions)) [
    | inl free ↦ free
    | inr (p, named) ↦ absurd (let (s, stored, _) = v.named name p named in ground arith)
  ]

  upsert-Valid :
      (name : String) (at et : Option ℕ) (key : Option String) (from : String) (id : ℕ)
      (ts : Option ℕ)
      → SubscriptionsValid (upsert_subscription name at et key from id ts m).1
  unfolding upsert_subscription
  upsert-Valid name at et key from id ts = elim (Option-cases (by_name m name)) [
    | inl e ↦
        rw (e, upsert_subscription)
          (allocate-SubscriptionsValid m v _ refl (by_name-named_valid name e))
    | inr ((q, s), e) ↦
        rw (e, upsert_subscription)
          (put-SubscriptionsValid m v q s _ (by_name-stored m q s name e) refl refl)
  ]

  add-Valid : (id t : ℕ) → SubscriptionsValid (add_subscription_event_type id t m).1
  unfolding add_subscription_event_type
  add-Valid id t = record {
    named = v.named;
    known = v.known;
    by_their_name = v.by_their_name;
    by_their_id = v.by_their_id;
    allocated = v.allocated;
    numbered = v.numbered;
  }

pub step-SubscriptionsValid :
    (c : Call) (m : Memory) → SubscriptionsValid m → SubscriptionsValid (step c m)
unfolding step
step-SubscriptionsValid (upserts name at et key from id ts) m v =
    upsert-Valid m v name at et key from id ts
step-SubscriptionsValid (adds_event_type id t) m v = add-Valid m v id t
step-SubscriptionsValid (activates id b) m v = activate-Valid m v id b
step-SubscriptionsValid (claims name o lease now) m v = claim-Valid m v name o lease now
step-SubscriptionsValid (renews name o lease now) m v = renew-Valid m v name o lease now
step-SubscriptionsValid (releases name o) m v = release-Valid m v name o
step-SubscriptionsValid (advances id c) m v = advance-Valid m v id c
