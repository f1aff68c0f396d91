-- ===== src/Memory/Leases/Valid/Allocate.antt =====
-- A new subscription keeps the maps and the objects in step.
use evercore.Base.{
  ℕ, ◌+◌, ◌≤◌, ◌<◌, String, some, none, ◌≡◌, ◌≢◌, ◌⊎◌, sym, ap, subst, ◌∙◌, inl, inr, arith, nat_eq,
  string_eq, Eq-cases,
}
use evercore.Base.Dict.{lookup, insert, lookup-insert_self, lookup-insert_ne}
use evercore.Types.{Subscription}
use evercore.Memory.State.{Memory}
use evercore.Memory.Leases.Valid.{SubscriptionsValid}

-- A new object, under its name and its id.
abbrev pub allocate : Memory → Subscription → Memory
allocate m s = record m {
  next_subscription_id = s.id;
  next_address = m.next_address + 1;
  objects = insert m.next_address s m.objects;
  subscriptions = insert s.name m.next_address m.subscriptions;
  subscription_by_id = insert s.id m.next_address m.subscription_by_id;
}

-- Both are new.
module _ (m : Memory) (v : SubscriptionsValid m) (s : Subscription)
    (new_id : s.id ≡ m.next_subscription_id + 1) (free : lookup s.name m.subscriptions ≡ none) where
  allocated_at :
      (p : ℕ) (r : Subscription)
      → lookup p (insert m.next_address s m.objects) ≡ some r
      → ((p ≡ m.next_address) × (r ≡ s)) ⊎ (lookup p m.objects ≡ some r)
  allocated_at p r h = elim (Eq-cases m.next_address p) [
    | inl same ↦
        let here : lookup p (insert m.next_address s m.objects) ≡ some s =
          subst (λ a. lookup a (insert m.next_address s m.objects) ≡ some s) same
            (lookup-insert_self m.next_address s m.objects) in
        inl (sym same, cc)
    | inr other ↦ inr (sym (lookup-insert_ne m.next_address p s m.objects other) ∙ h)
  ]

  old_stays :
      (p : ℕ) (r : Subscription)
      → lookup p m.objects ≡ some r
      → lookup p (insert m.next_address s m.objects) ≡ some r
  old_stays p r h =
      let below = v.allocated p r h in
      lookup-insert_ne m.next_address p s m.objects (omega arith) ∙ h

  allocate_named :
      (name : String) (p : ℕ)
      → lookup name (insert s.name m.next_address m.subscriptions) ≡ some p
      → (r : Subscription) × (lookup p (insert m.next_address s m.objects) ≡ some r)
        × (r.name ≡ name)
  allocate_named name p h = elim (Eq-cases s.name name) [
    | inl same ↦
        let here : lookup name (insert s.name m.next_address m.subscriptions)
            ≡ some m.next_address =
          subst (λ a. lookup a (insert s.name m.next_address m.subscriptions) ≡ some m.next_address)
            same (lookup-insert_self s.name m.next_address m.subscriptions) in
        let it : m.next_address ≡ p = cc in
        (
          s,
          subst (λ a. lookup a (insert m.next_address s m.objects) ≡ some s) it
              (lookup-insert_self m.next_address s m.objects),
          same,
        )
    | inr other ↦
        let (r, stored, n) =
          v.named name p
            (sym (lookup-insert_ne s.name name m.next_address m.subscriptions other) ∙ h) in
        (r, old_stays p r stored, n)
  ]

  allocate_known :
      (id p : ℕ)
      → lookup id (insert s.id m.next_address m.subscription_by_id) ≡ some p
      → (r : Subscription) × (lookup p (insert m.next_address s m.objects) ≡ some r) × (r.id ≡ id)
  allocate_known id p h = elim (Eq-cases s.id id) [
    | inl same ↦
        let here : lookup id (insert s.id m.next_address m.subscription_by_id)
            ≡ some m.next_address =
          subst
            (λ a. lookup a (insert s.id m.next_address m.subscription_by_id) ≡ some m.next_address)
            same (lookup-insert_self s.id m.next_address m.subscription_by_id) in
        let it : m.next_address ≡ p = cc in
        (
          s,
          subst (λ a. lookup a (insert m.next_address s m.objects) ≡ some s) it
              (lookup-insert_self m.next_address s m.objects),
          same,
        )
    | inr other ↦
        let (r, stored, n) =
          v.known id p
            (sym (lookup-insert_ne s.id id m.next_address m.subscription_by_id other) ∙ h) in
        (r, old_stays p r stored, n)
  ]

  allocate_by_name :
      (p : ℕ) (r : Subscription)
      → lookup p (insert m.next_address s m.objects) ≡ some r
      → lookup r.name (insert s.name m.next_address m.subscriptions) ≡ some p
  allocate_by_name p r h = elim (allocated_at p r h) [
    | inl (here, new) ↦
        subst (λ x. lookup x.name (insert s.name m.next_address m.subscriptions) ≡ some p) (sym new)
          (lookup-insert_self s.name m.next_address m.subscriptions ∙ ap some (sym here))
    | inr old ↦
        let led = v.by_their_name p r old in
        lookup-insert_ne s.name r.name m.next_address m.subscriptions (taken r p led) ∙ led
  ]
    where
      taken : (r : Subscription) (p : ℕ) → lookup r.name m.subscriptions ≡ some p → s.name ≢ r.name
      taken r p led same =
          let none_there : lookup r.name m.subscriptions ≡ none =
            subst (λ x. lookup x m.subscriptions ≡ none) same free in
          cc

  allocate_by_id :
      (p : ℕ) (r : Subscription)
      → lookup p (insert m.next_address s m.objects) ≡ some r
      → lookup r.id (insert s.id m.next_address m.subscription_by_id) ≡ some p
  allocate_by_id p r h = elim (allocated_at p r h) [
    | inl (here, new) ↦
        subst (λ x. lookup x.id (insert s.id m.next_address m.subscription_by_id) ≡ some p)
          (sym new)
          (lookup-insert_self s.id m.next_address m.subscription_by_id ∙ ap some (sym here))
    | inr old ↦
        let led = v.by_their_id p r old in
        let below = v.numbered p r old in
        lookup-insert_ne s.id r.id m.next_address m.subscription_by_id (omega (arith, new_id)) ∙ led
  ]

  allocate_below :
      (p : ℕ) (r : Subscription)
      → lookup p (insert m.next_address s m.objects) ≡ some r
      → (p < m.next_address + 1) × (r.id ≤ s.id)
  allocate_below p r h = elim (allocated_at p r h) [
    | inl (here, new) ↦ let same : r.id ≡ s.id = ap (λ x. x.id) new in omega arith
    | inr old ↦
        let below = v.allocated p r old in
        let numbered = v.numbered p r old in omega (arith, new_id)
  ]

  pub allocate-SubscriptionsValid : SubscriptionsValid (allocate m s)
  allocate-SubscriptionsValid = record {
    named = allocate_named;
    known = allocate_known;
    by_their_name = allocate_by_name;
    by_their_id = allocate_by_id;
    allocated = λ p r h. (allocate_below p r h).0;
    numbered = λ p r h. (allocate_below p r h).1;
  }
