-- ===== src/Memory/Leases/Exclusion/Claims.antt =====
-- What a successful claim gives its owner.
use evercore.Base.{
  ℕ, ◌+◌, ◌≤◌, ◌<◌, String, true, false, List, some, none, ◌≡◌, refl, inl, inr, arith, nat_eq,
  string_eq, Option-cases,
}
use evercore.Base.Dict.{lookup, lookup-insert_self}
use evercore.Base.Outcome.{ok}
use evercore.Memory.Leases.Objects.{by_name-named, by_name-stored}
use evercore.Types.{Subscription}
use evercore.Memory.State.{Memory}
use evercore.Memory.Leases.{by_name, put, claim_subscription}
use evercore.Memory.Leases.Exclusion.{Call, run, AreForeign, Leased}
use evercore.Memory.Leases.Exclusion.Calls.{claim_refused, run-Leased}

-- Every object lies below the allocator.
abbrev pub IsAllocated : Memory → Type 0
IsAllocated m = (p : ℕ) (s : Subscription) → lookup p m.objects ≡ some s → p < m.next_address

claim_missing :
    (m : Memory) (name owner : String) (lease now : ℕ)
    → by_name m name ≡ none
    → (claim_subscription name owner lease now m).0 ≡ ok false
unfolding claim_subscription
claim_missing m name owner lease now e = rw (e, claim_subscription)

claim_found :
    (m : Memory) (name owner : String) (lease now p : ℕ) (s : Subscription)
    → by_name m name ≡ some (p, s)
    → (claim_subscription name owner lease now m).0 ≡ ok true
    → claim_subscription name owner lease now m ≡ (
      ok true,
      put p (record s { lease_owner = some owner; lease_expires_at = some (now + lease) }) m,
    )
unfolding claim_subscription
claim_found m name owner lease now p s e claimed = ground arith

-- A successful claim leaves its owner's lease on the object of that name.
claim_lem :
    (m : Memory) (name owner : String) (lease now : ℕ)
    → IsAllocated m
    → (claim_subscription name owner lease now m).0 ≡ ok true
    → (p : ℕ) × Leased (claim_subscription name owner lease now m).1 name p owner (now + lease)
claim_lem m name owner lease now below claimed = elim (Option-cases (by_name m name)) [
  | inl e ↦ absurd (let no_claim = claim_missing m name owner lease now e in cc)
  | inr ((p, s), e) ↦
      let done = claim_found m name owner lease now p s e claimed in
      (
        p,
        rw done (record {
          named = by_name-named m p s name e;
          object = record s { lease_owner = some owner; lease_expires_at = some (now + lease) };
          stored = lookup-insert_self p _ m.objects;
          leased = record {
            owned = refl;
            expires = now + lease;
            dated = refl;
            lasts = omega arith;
          };
          allocated = below p s (by_name-stored m p s name e);
        }),
      )
]

-- After a successful claim on an engine whose objects all lie below its allocator, and after any
-- calls about subscriptions that others make before the lease runs out (claims no later than
-- that, and no renewals or releases in the owner's name), every further claim of that
-- subscription in that time returns false and changes nothing.
pub claim-excludes :
    (m : Memory) (name owner other : String) (lease lease' claimed now : ℕ) (cs : List Call)
    → IsAllocated m
    → (claim_subscription name owner lease claimed m).0 ≡ ok true
    → AreForeign owner (claimed + lease) cs
    → now ≤ claimed + lease
    → let m' = run cs (claim_subscription name owner lease claimed m).1 in
      claim_subscription name other lease' now m' ≡ (ok false, m')
claim-excludes m name owner other lease lease' claimed now cs below success foreign h =
    let (p, l) = claim_lem m name owner lease claimed below success in
    claim_refused name owner (claimed + lease) p _ other lease' now h
      (run-Leased name owner (claimed + lease) p cs _ foreign l)
