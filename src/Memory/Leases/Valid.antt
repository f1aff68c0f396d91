-- ===== src/Memory/Leases/Valid.antt =====
-- The two maps over subscriptions share their objects, whatever is asked of the engine.
pub mod Allocate
pub mod Calls
use evercore.Base.{
  ℕ, ◌+◌, ◌≤◌, ◌<◌, String, Bool, true, false, not, ◌||◌, Option, some, none, ◌≡◌, ◌≢◌, refl, sym,
  ap, subst, ◌∙◌, inl, inr, arith, nat_eq, string_eq, Eq-cases, Option-cases, Bool-cases,
  if◌then◌else◌,
}
use evercore.Base.Dict.{lookup, insert, lookup-insert_self, lookup-insert_ne}
use evercore.Types.{Subscription}
use evercore.Memory.State.{Memory}
use evercore.Memory.Leases.Objects.{Holds, by_name-named, by_name-stored, by_id-stored}
use evercore.Memory.Leases.Exclusion.{
  Call, upserts, adds_event_type, activates, claims, renews, releases, advances, step,
}
use evercore.Memory.Leases.{
  by_name, by_id, put, upsert_subscription, add_subscription_event_type, set_subscription_active,
  claim_subscription, renew_subscription, release_subscription, advance_subscription_cursor,
  is_owner, is_free,
}

-- A name leads to an object of that name, an id to an object of that id; and every object is
-- reached by its name and its id, and was allocated.
pub record SubscriptionsValid (m : Memory) : Type 0 where
  pub named :
      (name : String) (p : ℕ)
      → lookup name m.subscriptions ≡ some p
      → (s : Subscription) × (lookup p m.objects ≡ some s) × (s.name ≡ name)
  pub known :
      (id p : ℕ)
      → lookup id m.subscription_by_id ≡ some p
      → (s : Subscription) × (lookup p m.objects ≡ some s) × (s.id ≡ id)
  pub by_their_name :
      (p : ℕ) (s : Subscription)
      → lookup p m.objects ≡ some s
      → lookup s.name m.subscriptions ≡ some p
  pub by_their_id :
      (p : ℕ) (s : Subscription)
      → lookup p m.objects ≡ some s
      → lookup s.id m.subscription_by_id ≡ some p
  pub allocated : (p : ℕ) (s : Subscription) → lookup p m.objects ≡ some s → p < m.next_address
  pub numbered :
      (p : ℕ) (s : Subscription) → lookup p m.objects ≡ some s → s.id ≤ m.next_subscription_id

module _ (m : Memory) (v : SubscriptionsValid m) (q : ℕ) (s s' : Subscription)
    (at : lookup q m.objects ≡ some s) (same_id : s'.id ≡ s.id) (same_name : s'.name ≡ s.name) where
  -- An object after the write has its name and its id as before.
  put_before :
      (p : ℕ) (r : Subscription)
      → lookup p (insert q s' m.objects) ≡ some r
      → (o : Subscription) × (lookup p m.objects ≡ some o) × (r.id ≡ o.id) × (r.name ≡ o.name)
  put_before p r h = elim (Eq-cases q p) [
    | inl same ↦
        let here : lookup p (insert q s' m.objects) ≡ some s' =
          subst (λ a. lookup a (insert q s' m.objects) ≡ some s') same
            (lookup-insert_self q s' m.objects) in
        let it : s' ≡ r = cc in
        (
          s,
          subst (λ a. lookup a m.objects ≡ some s) same at,
          ap (λ x. x.id) (sym it) ∙ same_id,
          ap (λ x. x.name) (sym it) ∙ same_name,
        )
    | inr other ↦ (r, sym (lookup-insert_ne q p s' m.objects other) ∙ h, refl, refl)
  ]

  put_after :
      (p : ℕ) (o : Subscription)
      → lookup p m.objects ≡ some o
      → (r : Subscription) × (lookup p (insert q s' m.objects) ≡ some r)
        × (r.id ≡ o.id)
        × (r.name ≡ o.name)
  put_after p o h = elim (Eq-cases q p) [
    | inl same ↦
        let here : lookup p m.objects ≡ some s = subst (λ a. lookup a m.objects ≡ some s) same at in
        let it : s ≡ o = cc in
        (
          s',
          subst (λ a. lookup a (insert q s' m.objects) ≡ some s') same
              (lookup-insert_self q s' m.objects),
          same_id ∙ ap (λ x. x.id) it,
          same_name ∙ ap (λ x. x.name) it,
        )
    | inr other ↦ (o, lookup-insert_ne q p s' m.objects other ∙ h, refl, refl)
  ]

  pub put-SubscriptionsValid : SubscriptionsValid (put q s' m)
  put-SubscriptionsValid = record {
    named = λ name p h.
        let (o, stored, its) = v.named name p h in
        let (r, now, _, n) = put_after p o stored in (r, now, n ∙ its);
    known = λ id p h.
        let (o, stored, its) = v.known id p h in
        let (r, now, i, _) = put_after p o stored in (r, now, i ∙ its);
    by_their_name = λ p r h.
        let (o, stored, _, n) = put_before p r h in
        subst (λ x. lookup x m.subscriptions ≡ some p) (sym n) (v.by_their_name p o stored);
    by_their_id = λ p r h.
        let (o, stored, i, _) = put_before p r h in
        subst (λ x. lookup x m.subscription_by_id ≡ some p) (sym i) (v.by_their_id p o stored);
    allocated = λ p r h. let (o, stored, _, _) = put_before p r h in v.allocated p o stored;
    numbered = λ p r h.
        let (o, stored, i, _) = put_before p r h in
        subst (λ x. x ≤ m.next_subscription_id) (sym i) (v.numbered p o stored);
  }
