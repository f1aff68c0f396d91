-- ===== src/Sql/Leases/Exclusion.antt =====
-- A lease keeps every other owner out until it runs out, over SQL as in memory.
use evercore.Base.{
  ℕ, ◌+◌, ◌≤◌, String, true, false, List, [], ◌∷◌, some, none, ◌==◌, ◌≡◌, string_eq, nat_eq, refl,
  sym, ap, inl, inr, arith, Bool-cases, subst,
}
use evercore.Base.Outcome.{ok}
use evercore.Types.{Subscription}
use evercore.Memory.Leases.Exclusion.{
  Call, upserts, adds_event_type, activates, claims, renews, releases, advances, IsForeign,
  AreForeign,
}
use evercore.Sql.Tables.Rows.{Tables, any, count}
use evercore.Sql.Tables.Subscriptions as Tables
use evercore.Sql.Tables.Subscriptions.{is_lease_free, is_lease_of}
use evercore.Sql.Tables.Database.{Database, at_rest, queries}
use evercore.Sql.Engine.Subscriptions.{
  upsert_subscription, add_subscription_event_type, set_subscription_active, claim_subscription,
  renew_subscription, release_subscription, advance_subscription_cursor,
}
use evercore.Sql.Valid.{Apart, same_name}
use evercore.Sql.Leases.{step, run, LeasedRows}
use evercore.Sql.Leases.Rows.{
  &&-left, &&-right, claimable, update-LeasedRows, claim_misses, claim-LeasedRows,
}
use evercore.Sql.Leases.Foreign.{append-LeasedRows, same_lease, foreign_claim, foreign_owner}

module _ (title owner : String) (until : ℕ) where
  abbrev pub Held : Database → Type 0
  Held db = (t : Tables) × (db ≡ at_rest t) × LeasedRows title owner until t.subscriptions

  step-Held :
      (c : Call) (t : Tables)
      → IsForeign owner until c
      → LeasedRows title owner until t.subscriptions
      → Held (step c (at_rest t))
  unfolding step upsert_subscription add_subscription_event_type set_subscription_active
      claim_subscription renew_subscription release_subscription advance_subscription_cursor
      Tables.upsert_subscription Tables.select_subscription_id Tables.insert_subscription_event_type
      Tables.update_active Tables.update_lease_if_free Tables.update_lease_of Tables.clear_lease_of
      Tables.update_cursor
  step-Held (upserts name at et key from id ts) t f l =
      elim (Bool-cases (any (λ s. s.name == name) t.subscriptions)) [
        | inl known ↦
            let change : Subscription → Subscription = λ s. record s {
              aggregate_type_id = at;
              event_type_id = et;
              aggregate_key = key;
              start_from = from;
              start_event_id = id;
              start_timestamp = ts;
            } in
            rw known (
              _,
              refl,
              update-LeasedRows title owner until (λ s. s.name == name) change t.subscriptions
                  (λ s. refl)
                  (λ s hit k. same_lease title owner until s (change s) refl refl refl k) l,
            )
        | inr fresh ↦
            rw fresh (_, refl, append-LeasedRows title owner until _ t.subscriptions fresh l)
      ]
  step-Held (adds_event_type id ty) t f l = (_, refl, l)
  step-Held (activates id b) t f l =
      let change : Subscription → Subscription = λ s. record s { active = b } in
      (
        _,
        refl,
        update-LeasedRows title owner until (λ s. s.id == id) change t.subscriptions (λ s. refl)
            (λ s hit k. same_lease title owner until s (change s) refl refl refl k) l,
      )
  step-Held (claims name o lease now) t f l = (
    _,
    refl,
    update-LeasedRows title owner until (claimable name now) _ t.subscriptions (λ s. refl)
        (λ s hit k. foreign_claim title owner until name now s _ f hit refl k) l,
  )
  step-Held (renews name o lease now) t f l = (
    _,
    refl,
    update-LeasedRows title owner until _ _ t.subscriptions (λ s. refl)
        (λ s hit k.
          foreign_owner title owner until o s _ f
            (&&-left (is_lease_of o s) _ (&&-right (s.name == name) _ hit)) refl k)
        l,
  )
  step-Held (releases name o) t f l = (
    _,
    refl,
    update-LeasedRows title owner until _ _ t.subscriptions (λ s. refl)
        (λ s hit k.
          foreign_owner title owner until o s _ f (&&-right (s.name == name) _ hit) refl k)
        l,
  )
  step-Held (advances id c) t f l =
      let change : Subscription → Subscription = λ s. record s { last_event_id = c } in
      (
        _,
        refl,
        update-LeasedRows title owner until (λ s. s.id == id) change t.subscriptions (λ s. refl)
            (λ s hit k. same_lease title owner until s (change s) refl refl refl k) l,
      )

  run-Held :
      (cs : List Call) (db : Database) → AreForeign owner until cs → Held db → Held (run cs db)
  unfolding run
  run-Held [] db f held = held
  run-Held (c ∷ cs) db (f, fs) (t, e, l) =
      run-Held cs (step c db) fs (subst (λ d. Held (step c d)) (sym e) (step-Held c t f l))

  refused :
      (other : String) (lease now : ℕ) (db : Database)
      → now ≤ until
      → Held db
      → claim_subscription (queries none) title other lease now db ≡ (ok false, db)
  unfolding claim_subscription Tables.update_lease_if_free
  refused other lease now db h (t, e, l) =
      let f : Subscription → Subscription =
        λ s. record s { lease_owner = some other; lease_expires_at = some (now + lease) } in
      let (none_met, same) = claim_misses title owner until now f t.subscriptions h l.leased in
      rw e (rw none_met (ap (λ subs. (ok false, at_rest (record t { subscriptions = subs }))) same))

-- After a successful claim over a SQL database at rest whose subscriptions have distinct names,
-- and after any calls about subscriptions that others make before the lease runs out (claims no
-- later than that, and no renewals or releases in the owner's name), every further claim of that
-- subscription in that time returns false and changes nothing.
pub claim-excludes_sql :
    (t : Tables) (name owner other : String) (lease lease' claimed now : ℕ) (cs : List Call)
    → Apart same_name t.subscriptions
    → (claim_subscription (queries none) name owner lease claimed (at_rest t)).0 ≡ ok true
    → AreForeign owner (claimed + lease) cs
    → now ≤ claimed + lease
    → let db = run cs (claim_subscription (queries none) name owner lease claimed (at_rest t)).1 in
      claim_subscription (queries none) name other lease' now db ≡ (ok false, db)
unfolding claim_subscription Tables.update_lease_if_free
claim-excludes_sql t name owner other lease lease' claimed now cs unique success foreign h =
    let f : Subscription → Subscription =
      λ s. record s { lease_owner = some owner; lease_expires_at = some (claimed + lease) } in
    let met : count (claimable name claimed) t.subscriptions ≡ 1 =
      elim (Bool-cases (count (claimable name claimed) t.subscriptions == 1)) [
        | inl one ↦ (nat_eq.same_iff _ 1).0 one
        | inr several ↦ absurd (
            let not_claimed : (claim_subscription (queries none) name owner lease claimed
                  (at_rest t)).0
                ≡ ok false =
              rw several refl in
            cc)
      ] in
    let rows =
      claim-LeasedRows name owner (claimed + lease) claimed f t.subscriptions unique (λ s. refl)
        (λ s. record { owned = refl; expires = claimed + lease; dated = refl; lasts = omega arith })
        met in
    refused name owner (claimed + lease) other lease' now _ h
      (run-Held name owner (claimed + lease) cs _ foreign (_, refl, rows))
