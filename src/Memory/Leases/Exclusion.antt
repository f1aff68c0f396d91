-- ===== src/Memory/Leases/Exclusion.antt =====
-- A lease keeps every other owner out until it runs out.
pub mod Calls
pub mod Claims
use mathlib.Core.Path.{subst}
use evercore.Base.{
  ℕ, ◌+◌, ◌≤◌, ◌<◌, String, Bool, true, false, not, ◌||◌, List, [], ◌∷◌, Option, some, none, ◌≡◌,
  ◌≢◌, ◌⊎◌, refl, sym, ap, ◌∙◌, inl, inr, arith, ltb, ◌==◌, if◌then◌else◌, nat_eq, string_eq,
  ==_refl, ==_ne, Eq-cases, Option-cases, Bool-cases,
}
use evercore.Base.Dict.{lookup, insert, lookup-insert_self, lookup-insert_ne}
use evercore.Base.Outcome.{ok}
use evercore.Memory.Leases.Objects.{by_name-named, by_name-stored, by_id-stored}
use evercore.Types.{Subscription}
use evercore.Memory.State.{Memory}
use evercore.Memory.Leases.{
  by_name, by_id, put, upsert_subscription, add_subscription_event_type, set_subscription_active,
  claim_subscription, renew_subscription, release_subscription, advance_subscription_cursor,
  is_owner, is_free,
}

-- What a process may ask of the engine about subscriptions.
pub data Call : Type 0 where
  upserts : String → Option ℕ → Option ℕ → Option String → String → ℕ → Option ℕ → Call
  adds_event_type : ℕ → ℕ → Call
  activates : ℕ → Bool → Call
  claims renews : String → String → ℕ → ℕ → Call
  releases : String → String → Call
  advances : ℕ → ℕ → Call

-- The engine after a call.
unfoldable pub step : Call → Memory → Memory
step (upserts name at et key from id ts) m = (upsert_subscription name at et key from id ts m).1
step (adds_event_type id t) m = (add_subscription_event_type id t m).1
step (activates id b) m = (set_subscription_active id b m).1
step (claims name owner lease now) m = (claim_subscription name owner lease now m).1
step (renews name owner lease now) m = (renew_subscription name owner lease now m).1
step (releases name owner) m = (release_subscription name owner m).1
step (advances id c) m = (advance_subscription_cursor id c m).1

unfoldable pub run : List Call → Memory → Memory
unfolding step
run [] m = m
run (c ∷ cs) m = run cs (step c m)

-- A call that is not the owner's own, made while the clock has not passed `until`.
abbrev pub IsForeign : String → ℕ → Call → Type 0
IsForeign owner until (claims name o lease now) = now ≤ until
IsForeign owner until (renews name o lease now) = o ≢ owner
IsForeign owner until (releases name o) = o ≢ owner
IsForeign owner until _ = Unit

abbrev pub AreForeign : String → ℕ → List Call → Type 0
AreForeign owner until [] = Unit
AreForeign owner until (c ∷ cs) = IsForeign owner until c × AreForeign owner until cs

-- A subscription whose lease is the owner's until then at least.
pub record IsLeased (s : Subscription) (owner : String) (until : ℕ) : Type 0 where
  pub owned : s.lease_owner ≡ some owner
  pub expires : ℕ
  pub dated : s.lease_expires_at ≡ some expires
  pub lasts : until ≤ expires

-- The name leads to such an object, and the allocator is past its address.
pub record Leased (m : Memory) (name : String) (p : ℕ) (owner : String) (until : ℕ) : Type 0 where
  pub named : lookup name m.subscriptions ≡ some p
  pub object : Subscription
  pub stored : lookup p m.objects ≡ some object
  pub leased : IsLeased object owner until
  pub allocated : p < m.next_address

module _ (title owner : String) (until p : ℕ) where
  pub put-Leased :
      (m : Memory) (q : ℕ) (s s' : Subscription)
      → Leased m title p owner until
      → lookup q m.objects ≡ some s
      → (IsLeased s owner until → IsLeased s' owner until)
      → Leased (put q s' m) title p owner until
  put-Leased m q s s' l at keep = elim (Eq-cases q p) [
    | inl same ↦
        let here : lookup p m.objects ≡ some s = subst (λ a. lookup a m.objects ≡ some s) same at in
        let it : l.object ≡ s = cc in
        record {
          named = l.named;
          object = s';
          stored = rw same (lookup-insert_self p s' m.objects);
          leased = keep (subst (λ o. IsLeased o owner until) it l.leased);
          allocated = l.allocated;
        }
    | inr other ↦ record {
      named = l.named;
      object = l.object;
      stored = lookup-insert_ne q p s' m.objects other ∙ l.stored;
      leased = l.leased;
      allocated = l.allocated;
    }
  ]

  pub is_free-IsLeased :
      (s : Subscription) (now : ℕ) → now ≤ until → IsLeased s owner until → is_free s now ≡ false
  unfolding is_free
  is_free-IsLeased s now h l = ground (arith, l.owned, l.dated, l.lasts)

  is_owner-IsLeased :
      (s : Subscription) (o : String) → o ≢ owner → IsLeased s owner until → is_owner s o ≡ false
  unfolding is_owner
  is_owner-IsLeased s o h l = rw (l.owned, is_owner) (==_ne owner o (λ e. h (sym e)))

  pub by_name-Leased :
      (m : Memory) (l : Leased m title p owner until) → by_name m title ≡ some (p, l.object)
  unfolding by_name
  by_name-Leased m l = ground (arith, l.named, l.stored)

  pub other_name :
      (m : Memory) (name : String)
      → Leased m title p owner until
      → by_name m name ≡ none
      → name ≢ title
  other_name m name l e same =
      let found = by_name-Leased m l in
      let lost : by_name m title ≡ none = subst (λ n. by_name m n ≡ none) same e in cc

  pub free_not :
      (s : Subscription) (now : ℕ) → now ≤ until → IsLeased s owner until → is_free s now ≡ true → ⊥
  free_not s now h l free = let e = is_free-IsLeased s now h l in cc

  pub owner_not :
      (s : Subscription) (o : String) → o ≢ owner → IsLeased s owner until → is_owner s o ≡ true → ⊥
  owner_not s o h l own = let e = is_owner-IsLeased s o h l in cc
