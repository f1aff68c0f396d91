-- ===== src/Sql/Delivery/Updates.antt =====
-- What an update of the subscriptions does to one of them, and to its pending events.
use evercore.Base.{
  ℕ, String, Bool, true, false, List, [], ◌∷◌, ◌++◌, Option, some, ◌==◌, ◌≡◌, refl, sym, ap, subst,
  ◌∙◌, inl, inr, map, nat_eq, string_eq, Bool-cases,
}
use evercore.Types.{Subscription}
use evercore.Sql.Queries.{
  EventLogRow, Condition, aggregate_type_is, natural_key_is, event_type_among, event_type_is,
}
use evercore.Sql.Engine.Subscriptions.{
  conditions, type_condition, key_condition, event_type_condition, scanned,
}
use evercore.Sql.Tables.Rows.{Tables, EventRow, find, update}
use evercore.Sql.Tables.Subscriptions.{
  event_log, event_log_row, aggregate_type_of, meets, meets_all,
}
use evercore.Sql.Delivery.{has_types, passes, after, pending_in}

-- An update that meets a row which a search by name finds.
pub find-update :
    (name : String) (p : Subscription → Bool) (f : Subscription → Subscription) (s : Subscription)
    (subs : List Subscription)
    → ((o : Subscription) → (f o).name ≡ o.name)
    → p s ≡ true
    → find (λ o. o.name == name) subs ≡ some s
    → find (λ o. o.name == name) (update p f subs) ≡ some (f s)
find-update name p f s [] named met found = absurd (cc)
find-update name p f s (o ∷ subs) named met found = elim (Bool-cases (o.name == name)) [
  | inl hit ↦
      let here : find (λ o. o.name == name) (o ∷ subs) ≡ some o = rw hit refl in
      let it : o ≡ s = cc in
      let met_o : p o ≡ true = subst (λ x. p x ≡ true) (sym it) met in
      let hit_too : ((f o).name == name) ≡ true = ap (λ n. n == name) (named o) ∙ hit in
      rw met_o (rw hit_too (ap (λ x. some (f x)) it))
  | inr miss ↦
      let later : find (λ o. o.name == name) (o ∷ subs) ≡ find (λ o. o.name == name) subs =
        rw miss refl in
      let rest = find-update name p f s subs named met (sym later ∙ found) in
      elim (Bool-cases (p o)) [
        | inl changes ↦
            let miss_too : ((f o).name == name) ≡ false = ap (λ n. n == name) (named o) ∙ miss in
            rw changes (rw miss_too rest)
        | inr kept ↦ rw kept (rw miss rest)
      ]
]

pub find-passes :
    (name : String) (s : Subscription) (subs : List Subscription)
    → find (λ o. o.name == name) subs ≡ some s
    → (s.name == name) ≡ true
find-passes name s [] found = absurd (cc)
find-passes name s (o ∷ subs) found = elim (Bool-cases (o.name == name)) [
  | inl hit ↦
      let here : find (λ o. o.name == name) (o ∷ subs) ≡ some o = rw hit refl in
      let it : o ≡ s = cc in subst (λ x. (x.name == name) ≡ true) it hit
  | inr miss ↦
      let later : find (λ o. o.name == name) (o ∷ subs) ≡ find (λ o. o.name == name) subs =
        rw miss refl in
      find-passes name s subs (sym later ∙ found)
]

-- What is pending does not depend on the subscriptions in the tables, nor on their leases.
module _ (t : Tables) (subs : List Subscription) where
  abbrev changed : Tables
  changed = record t { subscriptions = subs }

  event_log-changed : (es : List EventRow) → event_log changed es ≡ event_log t es
  unfolding event_log event_log_row aggregate_type_of
  event_log-changed [] = refl
  event_log-changed (e ∷ es) = ap (λ l. event_log_row t e ++ l) (event_log-changed es)

  meets-changed : (r : EventLogRow) (c : Condition) → meets changed r c ≡ meets t r c
  unfolding meets
  meets-changed r (aggregate_type_is id) = refl
  meets-changed r (natural_key_is key) = refl
  meets-changed r (event_type_among id) = refl
  meets-changed r (event_type_is id) = refl

  meets_all-changed :
      (r : EventLogRow) (cs : List Condition) → meets_all changed r cs ≡ meets_all t r cs
  unfolding meets_all
  meets_all-changed r [] = refl
  meets_all-changed r (c ∷ cs) = rw (meets-changed r c, meets_all-changed r cs) refl

  after-changed :
      (sub : Subscription) (cursor : ℕ) (expires : Option ℕ) (c : ℕ) (rows : List EventLogRow)
      → let sub' = record sub { last_event_id = cursor; lease_expires_at = expires } in
        after (passes changed sub') c rows ≡ after (passes t sub) c rows
  unfolding after conditions type_condition key_condition event_type_condition
  after-changed sub cursor expires c [] = refl
  after-changed sub cursor expires c (r ∷ rows) =
      rw
        (
          meets_all-changed r (conditions (has_types t sub) sub),
          after-changed sub cursor expires c rows,
        )
        refl

  pub pending_in-changed :
      (sub : Subscription) (cursor : ℕ) (expires : Option ℕ)
      → pending_in changed (record sub { last_event_id = cursor; lease_expires_at = expires })
        ≡ map scanned (after (passes t sub) cursor (event_log t t.events))
  pending_in-changed sub cursor expires =
      rw (event_log-changed t.events)
        (ap (map scanned) (after-changed sub cursor expires cursor (event_log t t.events)))
