-- ===== src/Memory/Leases/Exclusion/Calls.antt =====
-- Every call by another process leaves a lease as it is.
use evercore.Base.{
  ℕ, ◌≤◌, ◌<◌, String, Bool, false, not, ◌||◌, List, [], ◌∷◌, Option, some, ◌≡◌, ◌≢◌, refl, ◌∙◌,
  inl, inr, arith, nat_eq, string_eq, Option-cases, Bool-cases,
}
use evercore.Base.Dict.{lookup-insert_ne}
use evercore.Base.Outcome.{ok}
use evercore.Memory.Leases.Objects.{by_name-stored, by_id-stored}
use evercore.Types.{Subscription}
use evercore.Memory.State.{Memory}
use evercore.Memory.Leases.{
  by_name, by_id, put, upsert_subscription, add_subscription_event_type, set_subscription_active,
  claim_subscription, renew_subscription, release_subscription, advance_subscription_cursor,
  is_owner, is_free,
}
use evercore.Memory.Leases.Exclusion.{
  Call, upserts, adds_event_type, activates, claims, renews, releases, advances, step, run,
  IsForeign, AreForeign, Leased, put-Leased, by_name-Leased, other_name, free_not, owner_not,
  is_free-IsLeased,
}

module _ (title owner : String) (until p : ℕ) where
  claim-Leased :
      (m : Memory) (name o : String) (lease now : ℕ)
      → now ≤ until
      → Leased m title p owner until
      → Leased (claim_subscription name o lease now m).1 title p owner until
  unfolding claim_subscription
  claim-Leased m name o lease now h l = elim (Option-cases (by_name m name)) [
    | inl e ↦ rw (e, claim_subscription) l
    | inr ((q, s), e) ↦
        rw (e, claim_subscription)
          (elim (Bool-cases (not s.active)) [
            | inl off ↦ rw off l
            | inr on ↦ rw on (elim (Bool-cases (is_free s now)) [
              | inr taken ↦ rw taken l
              | inl free ↦ rw free (
                  put-Leased title owner until p m q s _ l (by_name-stored m q s name e)
                    (λ held. absurd (free_not title owner until p s now h held free)))
            ])
          ])
  ]

  pub claim_refused :
      (m : Memory) (o : String) (lease now : ℕ)
      → now ≤ until
      → Leased m title p owner until
      → claim_subscription title o lease now m ≡ (ok false, m)
  unfolding claim_subscription
  claim_refused m o lease now h l =
      let taken = is_free-IsLeased title owner until p l.object now h l.leased in
      ground (arith, by_name-Leased title owner until p m l)

  renew-Leased :
      (m : Memory) (name o : String) (lease now : ℕ)
      → o ≢ owner
      → Leased m title p owner until
      → Leased (renew_subscription name o lease now m).1 title p owner until
  unfolding renew_subscription
  renew-Leased m name o lease now h l = elim (Option-cases (by_name m name)) [
    | inl e ↦ rw (e, renew_subscription) l
    | inr ((q, s), e) ↦
        rw (e, renew_subscription)
          (elim (Bool-cases (not s.active || not (is_owner s o))) [
            | inl off ↦ rw off l
            | inr own ↦ rw own (
                put-Leased title owner until p m q s _ l (by_name-stored m q s name e)
                  (λ held. absurd (owner_not title owner until p s o h held (ground arith))))
          ])
  ]

  release-Leased :
      (m : Memory) (name o : String)
      → o ≢ owner
      → Leased m title p owner until
      → Leased (release_subscription name o m).1 title p owner until
  unfolding release_subscription
  release-Leased m name o h l = elim (Option-cases (by_name m name)) [
    | inl e ↦ rw (e, release_subscription) l
    | inr ((q, s), e) ↦
        rw (e, release_subscription)
          (elim (Bool-cases (not (is_owner s o))) [
            | inl off ↦ rw off l
            | inr own ↦ rw own (
                put-Leased title owner until p m q s _ l (by_name-stored m q s name e)
                  (λ held. absurd (owner_not title owner until p s o h held (ground arith))))
          ])
  ]

  by_id-Leased :
      (m : Memory) (id q : ℕ) (s s' : Subscription)
      → Leased m title p owner until
      → by_id m id ≡ some (q, s)
      → s'.lease_owner ≡ s.lease_owner
      → s'.lease_expires_at ≡ s.lease_expires_at
      → Leased (put q s' m) title p owner until
  by_id-Leased m id q s s' l e same_owner same_date =
      put-Leased title owner until p m q s s' l (by_id-stored m q s id e) (λ held. record {
        owned = same_owner ∙ held.owned;
        expires = held.expires;
        dated = same_date ∙ held.dated;
        lasts = held.lasts;
      })

  activate-Leased :
      (m : Memory) (id : ℕ) (b : Bool)
      → Leased m title p owner until
      → Leased (set_subscription_active id b m).1 title p owner until
  unfolding set_subscription_active
  activate-Leased m id b l = elim (Option-cases (by_id m id)) [
    | inl e ↦ rw (e, set_subscription_active) l
    | inr ((q, s), e) ↦ rw (e, set_subscription_active) (by_id-Leased m id q s _ l e refl refl)
  ]

  advance-Leased :
      (m : Memory) (id c : ℕ)
      → Leased m title p owner until
      → Leased (advance_subscription_cursor id c m).1 title p owner until
  unfolding advance_subscription_cursor
  advance-Leased m id c l = elim (Option-cases (by_id m id)) [
    | inl e ↦ rw (e, advance_subscription_cursor) l
    | inr ((q, s), e) ↦ rw (e, advance_subscription_cursor) (by_id-Leased m id q s _ l e refl refl)
  ]

  upsert-Leased :
      (m : Memory) (name : String) (at et : Option ℕ) (key : Option String) (from : String) (id : ℕ)
      (ts : Option ℕ)
      → Leased m title p owner until
      → Leased (upsert_subscription name at et key from id ts m).1 title p owner until
  unfolding upsert_subscription
  upsert-Leased m name at et key from id ts l = elim (Option-cases (by_name m name)) [
    | inl e ↦
        rw (e, upsert_subscription)
          (record {
            named =
                lookup-insert_ne name title m.next_address m.subscriptions
                  (other_name title owner until p m name l e)
                ∙ l.named;
            object = l.object;
            stored = lookup-insert_ne m.next_address p _ m.objects (after l.allocated) ∙ l.stored;
            leased = l.leased;
            allocated = let a = l.allocated in omega arith;
          })
    | inr ((q, s), e) ↦
        rw (e, upsert_subscription)
          (put-Leased title owner until p m q s _ l (by_name-stored m q s name e) (λ held. record {
            owned = held.owned;
            expires = held.expires;
            dated = held.dated;
            lasts = held.lasts;
          }))
  ]
    where
      after : p < m.next_address → m.next_address ≢ p
      after h = omega arith

  step-Leased :
      (c : Call) (m : Memory)
      → IsForeign owner until c
      → Leased m title p owner until
      → Leased (step c m) title p owner until
  unfolding step
  step-Leased (upserts name at et key from id ts) m f l =
      upsert-Leased m name at et key from id ts l
  step-Leased (adds_event_type id t) m f l =
      unfold add_subscription_event_type in
      record {
        named = l.named;
        object = l.object;
        stored = l.stored;
        leased = l.leased;
        allocated = l.allocated;
      }
  step-Leased (activates id b) m f l = activate-Leased m id b l
  step-Leased (claims name o lease now) m f l = claim-Leased m name o lease now f l
  step-Leased (renews name o lease now) m f l = renew-Leased m name o lease now f l
  step-Leased (releases name o) m f l = release-Leased m name o f l
  step-Leased (advances id c) m f l = advance-Leased m id c l

  pub run-Leased :
      (cs : List Call) (m : Memory)
      → AreForeign owner until cs
      → Leased m title p owner until
      → Leased (run cs m) title p owner until
  unfolding run
  run-Leased [] m f l = l
  run-Leased (c ∷ cs) m f l = run-Leased cs (step c m) f.1 (step-Leased c m f.0 l)
