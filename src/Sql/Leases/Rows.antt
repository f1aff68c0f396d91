-- ===== src/Sql/Leases/Rows.antt =====
-- What the updates do to rows of a name.
use evercore.Base.{
  ℕ, ◌≤◌, String, Bool, true, false, ◌&&◌, List, [], ◌∷◌, ◌==◌, ◌≡◌, ◌≢◌, string_eq, nat_eq, All,
  refl, sym, ap, ◌∙◌, inl, inr, arith, Bool-cases, ==_ne,
}
use evercore.Types.{Subscription}
use evercore.Memory.Leases.Exclusion.{IsLeased}
use evercore.Sql.Tables.Rows.{any, update, count}
use evercore.Sql.Tables.Subscriptions.{is_lease_free, is_lease_of}
use evercore.Sql.Valid.{Apart, same_name}
use evercore.Sql.Leases.{LeasedIf, LeasedRows}

-- The rows that a claim of a name may change.
abbrev pub claimable : String → ℕ → Subscription → Bool
claimable name now s = s.name == name && (s.active && is_lease_free now s)

pub &&-left : (a b : Bool) → a && b ≡ true → a ≡ true
&&-left true b h = refl
&&-left false b h = h

pub &&-right : (a b : Bool) → a && b ≡ true → b ≡ true
&&-right true b h = h
&&-right false b h = absurd (cc)

module _ (title owner : String) (until : ℕ) where
  pub free-IsLeased :
      (s : Subscription) (now : ℕ)
      → now ≤ until
      → IsLeased s owner until
      → is_lease_free now s ≡ false
  free-IsLeased s now h l = ground (arith, l.owned, l.dated, l.lasts)

  pub of-IsLeased :
      (s : Subscription) (o : String) → o ≢ owner → IsLeased s owner until → is_lease_of o s ≡ false
  of-IsLeased s o h l = rw l.owned (==_ne owner o (λ e. h (sym e)))

  any-update :
      (p : Subscription → Bool) (f : Subscription → Subscription) (subs : List Subscription)
      → ((s : Subscription) → (f s).name ≡ s.name)
      → any (λ s. s.name == title) (update p f subs) ≡ any (λ s. s.name == title) subs
  any-update p f [] keeps = refl
  any-update p f (s ∷ subs) keeps = ground (arith, any-update p f subs keeps, keeps s)

  All-update :
      (p : Subscription → Bool) (f : Subscription → Subscription) (subs : List Subscription)
      → ((s : Subscription)
          → p s ≡ true
          → LeasedIf title owner until s
          → LeasedIf title owner until (f s))
      → All (LeasedIf title owner until) subs
      → All (LeasedIf title owner until) (update p f subs)
  All-update p f [] keeps all = tt
  All-update p f (s ∷ subs) keeps (l, ls) =
      let rest = All-update p f subs keeps ls in
      elim (Bool-cases (p s)) [
        | inl hit ↦ rw hit (keeps s hit l, rest)
        | inr miss ↦ rw miss (l, rest)
      ]

  -- An update that keeps names, and the lease of a row of this name.
  pub update-LeasedRows :
      (p : Subscription → Bool) (f : Subscription → Subscription) (subs : List Subscription)
      → ((s : Subscription) → (f s).name ≡ s.name)
      → ((s : Subscription)
          → p s ≡ true
          → LeasedIf title owner until s
          → LeasedIf title owner until (f s))
      → LeasedRows title owner until subs
      → LeasedRows title owner until (update p f subs)
  update-LeasedRows p f subs named keeps l = record {
    present = any-update p f subs named ∙ l.present;
    leased = All-update p f subs keeps l.leased;
  }

  any_here :
      (s : Subscription) (subs : List Subscription)
      → (s.name == title) ≡ true
      → any (λ o. o.name == title) (s ∷ subs) ≡ true
  any_here s subs hit = rw hit refl

  -- A claim of the name in that time meets no row.
  pub claim_misses :
      (now : ℕ) (f : Subscription → Subscription) (subs : List Subscription)
      → now ≤ until
      → All (LeasedIf title owner until) subs
      → (count (claimable title now) subs ≡ 0) × (update (claimable title now) f subs ≡ subs)
  claim_misses now f [] h all = (refl, refl)
  claim_misses now f (s ∷ subs) h (l, ls) =
      let (none_met, same) = claim_misses now f subs h ls in
      let miss : claimable title now s ≡ false = elim (Bool-cases (s.name == title)) [
        | inl hit ↦
            let busy = free-IsLeased s now h (l ((string_eq.same_iff s.name title).0 hit)) in
            ground (arith, busy, hit)
        | inr other ↦ rw other refl
      ] in
      (rw miss none_met, rw miss (ap (λ r. s ∷ r) same))

  -- The rows of other names are met by no claim of this one.
  others_missed :
      (now : ℕ) (f : Subscription → Subscription) (s : Subscription) (subs : List Subscription)
      → s.name ≡ title
      → All (λ o. same_name s o ≡ false) subs
      → (count (claimable title now) subs ≡ 0)
        × All (LeasedIf title owner until) (update (claimable title now) f subs)
  others_missed now f s [] e all = (refl, tt)
  others_missed now f s (o ∷ subs) e (ne, rest) =
      let (none_met, leased) = others_missed now f s subs e rest in
      let other : (o.name == title) ≡ false =
        ==_ne o.name title
          (λ q. absurd (let eq = (string_eq.same_iff s.name o.name).1 (e ∙ sym q) in cc)) in
      let vacuous : LeasedIf title owner until o =
        λ same. absurd (let eq = (string_eq.same_iff o.name title).1 same in cc) in
      (rw other none_met, rw other (vacuous, leased))

  -- A claim that meets one row, where names are unique, leaves the lease on all rows of the name.
  pub claim-LeasedRows :
      (now : ℕ) (f : Subscription → Subscription) (subs : List Subscription)
      → Apart same_name subs
      → ((s : Subscription) → (f s).name ≡ s.name)
      → ((s : Subscription) → IsLeased (f s) owner until)
      → count (claimable title now) subs ≡ 1
      → LeasedRows title owner until (update (claimable title now) f subs)
  claim-LeasedRows now f [] unique named given met = absurd (omega arith)
  claim-LeasedRows now f (s ∷ subs) (alone, unique) named given met =
      elim (Bool-cases (s.name == title)) [
        | inl hit ↦
            let (none_met, leased) =
              others_missed now f s subs ((string_eq.same_iff s.name title).0 hit) alone in
            elim (Bool-cases (claimable title now s)) [
              | inl claimed ↦ rw claimed (record {
                present =
                    any_here (f s) (update (claimable title now) f subs)
                      (ap (λ n. n == title) (named s) ∙ hit);
                leased = (λ _. given s, leased);
              })
              | inr missed ↦ absurd (
                  let no_row : count (claimable title now) (s ∷ subs) ≡ 0 = rw missed none_met in
                  omega arith)
            ]
        | inr other ↦
            let missed : claimable title now s ≡ false = rw other refl in
            let met_later : count (claimable title now) subs ≡ 1 =
              sym (
                let same : count (claimable title now) (s ∷ subs)
                    ≡ count (claimable title now) subs =
                  rw missed refl in
                same)
              ∙ met in
            let later = claim-LeasedRows now f subs unique named given met_later in
            rw missed (record {
              present = rw other later.present;
              leased = (
                λ same. absurd (let eq = (string_eq.same_iff s.name title).1 same in cc),
                later.leased,
              );
            })
      ]
