-- ===== src/Sql/Leases/Foreign.antt =====
-- What the calls of others do to the rows of a leased subscription.
use evercore.Base.{
  ℕ, ◌≤◌, String, Bool, true, false, List, [], ◌∷◌, ◌++◌, ◌==◌, ◌≡◌, ◌≢◌, string_eq, nat_eq, refl,
  sym, ◌∙◌, inl, inr, Bool-cases, All-append, subst,
}
use evercore.Types.{Subscription}
use evercore.Sql.Tables.Rows.{any}
use evercore.Sql.Tables.Subscriptions.{is_lease_of}
use evercore.Sql.Leases.{LeasedIf, LeasedRows}
use evercore.Sql.Leases.Rows.{&&-right, claimable, free-IsLeased, of-IsLeased}

any-append :
    (p : Subscription → Bool) (xs ys : List Subscription)
    → any p xs ≡ true
    → any p (xs ++ ys) ≡ true
any-append p [] ys h = absurd (cc)
any-append p (x ∷ xs) ys h = elim (Bool-cases (p x)) [
  | inl hit ↦ rw hit refl
  | inr miss ↦
      rw miss
        (any-append p xs ys (let later : any p (x ∷ xs) ≡ any p xs = rw miss refl in sym later ∙ h))
]

module _ (title owner : String) (until : ℕ) where
  -- A new row has another name, since this one is there.
  pub append-LeasedRows :
      (s : Subscription) (subs : List Subscription)
      → any (λ o. o.name == s.name) subs ≡ false
      → LeasedRows title owner until subs
      → LeasedRows title owner until (subs ++ s ∷ [])
  append-LeasedRows s subs fresh l = record {
    present = any-append (λ o. o.name == title) subs _ l.present;
    leased = All-append (LeasedIf title owner until) subs (s ∷ []) l.leased (
      (λ same. absurd (
          let here : any (λ o. o.name == s.name) subs ≡ true =
            subst (λ n. any (λ o. o.name == n) subs ≡ true) (sym same) l.present in
          cc)),
      tt,
    );
  }

  pub same_lease :
      (s s' : Subscription)
      → s'.name ≡ s.name
      → s'.lease_owner ≡ s.lease_owner
      → s'.lease_expires_at ≡ s.lease_expires_at
      → LeasedIf title owner until s
      → LeasedIf title owner until s'
  same_lease s s' named owned dated k same =
      let l = k (sym named ∙ same) in
      record {
        owned = owned ∙ l.owned;
        expires = l.expires;
        dated = dated ∙ l.dated;
        lasts = l.lasts;
      }

  pub foreign_claim :
      (name : String) (now : ℕ) (s s' : Subscription)
      → now ≤ until
      → claimable name now s ≡ true
      → s'.name ≡ s.name
      → LeasedIf title owner until s
      → LeasedIf title owner until s'
  foreign_claim name now s s' h hit named l same =
      let free = &&-right s.active _ (&&-right (s.name == name) _ hit) in
      let busy = free-IsLeased title owner until s now h (l (sym named ∙ same)) in absurd (cc)

  pub foreign_owner :
      (o : String) (s s' : Subscription)
      → o ≢ owner
      → is_lease_of o s ≡ true
      → s'.name ≡ s.name
      → LeasedIf title owner until s
      → LeasedIf title owner until s'
  foreign_owner o s s' other hit named l same =
      let not_its = of-IsLeased title owner until s o other (l (sym named ∙ same)) in absurd (cc)
