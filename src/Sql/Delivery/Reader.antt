-- ===== src/Sql/Delivery/Reader.antt =====
-- A SQL engine reads a subscription by its pending events.
use evercore.Base.{
  ℕ, suc, ◌+◌, ◌<◌, String, Bool, true, false, ◌&&◌, List, [], ◌∷◌, none, some, ltb, ◌==◌, ◌≡◌,
  refl, sym, ap, subst, ◌∙◌, ◌≢◌, inl, inr, map, take-map, drop-map, take, drop, nat_eq, string_eq,
  ==_refl, Bool-cases,
}
use evercore.Base.Outcome.{ok}
use evercore.Types.{Subscription}
use evercore.Sql.Errors.{is_no_rows}
use evercore.Sql.Queries.{EventLogRow}
use evercore.Sql.Engine.Subscriptions.{
  conditions, scanned, get_events_for_subscription, get_subscription_by_name, renew_subscription,
  advance_subscription_cursor,
}
use evercore.Sql.Engine.Interface.{sqlite_engine}
use evercore.Sql.Tables.Rows.{Tables, find, update}
use evercore.Sql.Tables.Subscriptions.{
  event_log, select_events, select_event_type_of, select_subscription, update_lease_of,
  update_cursor, is_lease_of,
}
use evercore.Sql.Tables.Database.{Database, at_rest, connection, queries}
use evercore.Subscriptions.Setup.{last_id}
use evercore.Subscriptions.Durable.Reader.{Reader}
use evercore.Sql.Valid.{EventsValid}
use evercore.Sql.Delivery.{has_types, passes, after, pending_in, pending, Owns}
use evercore.Sql.Delivery.Rising.{Rises, event_log-Rises, keep_if-Rises, order_by-Rises}
use evercore.Sql.Delivery.Cursor.{end_of, moves}
use evercore.Sql.Delivery.Updates.{find-passes, find-update, pending_in-changed}

last_id-scanned : (rows : List EventLogRow) → last_id (map scanned rows) ≡ end_of rows
unfolding last_id
last_id-scanned [] = refl
last_id-scanned (r ∷ []) = refl
last_id-scanned (r ∷ r' ∷ rows) = last_id-scanned (r' ∷ rows)

-- The engine's read, of tables whose events ascend.
module _ (t : Tables) (sub : Subscription) (limit : ℕ)
    (rises : Rises 0 (event_log t t.events)) where
  selected :
      (multi : Bool)
      → has_types t sub ≡ multi
      → select_events sub.last_event_id (conditions multi sub) limit t
        ≡ (ok (take limit (after (passes t sub) sub.last_event_id (event_log t t.events))), t)
  unfolding select_events after
  selected multi e = rw (sym e) (
      ap (λ l. (ok (take limit l), t))
        (order_by-Rises 0 _
          (keep_if-Rises (λ r. ltb sub.last_event_id r.id && passes t sub r) 0 _ rises)))

  reads_lem :
      get_events_for_subscription (queries none) sub limit (at_rest t)
      ≡ (ok (take limit (pending_in t sub)), at_rest t)
  unfolding get_events_for_subscription select_event_type_of is_no_rows
  reads_lem =
      let read =
        ap (λ l. (ok l, at_rest t))
          (sym (
            take-map scanned limit
              (after (passes t sub) sub.last_event_id (event_log t t.events)))) in
      elim (Bool-cases (has_types t sub)) [
        | inl several ↦ rw several (rw (selected true several) read)
        | inr one ↦ rw one (rw (selected false one) read)
      ]

-- The end of a batch lies beyond the cursor, and what is after it is the rest.
moved_lem :
    (t : Tables) (sub : Subscription) (k : ℕ)
    → Rises 0 (event_log t t.events)
    → pending_in t sub ≢ []
    → let last = last_id (take (suc k) (pending_in t sub)) in
      (sub.last_event_id < last)
      × (map scanned (after (passes t sub) last (event_log t t.events))
          ≡ drop (suc k) (pending_in t sub))
moved_lem t sub k rises more =
    let rows = event_log t t.events in
    let left = after (passes t sub) sub.last_event_id rows in
    let (beyond, rest) =
      moves (passes t sub) sub.last_event_id k 0 rows rises (λ e. more (ap (map scanned) e)) in
    let same : last_id (take (suc k) (pending_in t sub)) ≡ end_of (take (suc k) left) =
      ap last_id (take-map scanned (suc k) left) ∙ last_id-scanned (take (suc k) left) in
    rw same (beyond, ap (map scanned) rest ∙ sym (drop-map scanned (suc k) left))

valid-Rises : (t : Tables) → EventsValid t.events → Rises 0 (event_log t t.events)
valid-Rises t (rising, positive, _) = event_log-Rises t 0 t.events positive rising

module _ (name owner : String) where
  -- An update that meets the subscription's row and changes its cursor or the end of its lease.
  updated-Owns :
      (t : Tables) (sub : Subscription) (p : Subscription → Bool) (f : Subscription → Subscription)
      → EventsValid t.events
      → find (λ s. s.name == name) t.subscriptions ≡ some sub
      → ((o : Subscription) → (f o).name ≡ o.name)
      → p sub ≡ true
      → (f sub).active ≡ true
      → (f sub).lease_owner ≡ some owner
      → Owns name owner (at_rest (record t { subscriptions = update p f t.subscriptions })) (f sub)
  updated-Owns t sub p f valid found named met active owned = record {
    tables = record t { subscriptions = update p f t.subscriptions };
    rests = refl;
    valid = valid;
    found = find-update name p f sub t.subscriptions named met found;
    active = active;
    owned = owned;
  }

  renews_lem :
      (t : Tables) (sub : Subscription) (lease now : ℕ)
      → EventsValid t.events
      → find (λ s. s.name == name) t.subscriptions ≡ some sub
      → sub.active ≡ true
      → sub.lease_owner ≡ some owner
      → let sub' = record sub { lease_expires_at = some (now + lease) } in
        (db : Database) × (b : Bool) × (renew_subscription
            (queries none)
            name
            owner
            lease
            now
            (at_rest t)
          ≡ (ok b, db))
        × Owns name owner db sub'
        × (pending db sub' ≡ pending_in t sub)
  unfolding renew_subscription update_lease_of
  renews_lem t sub lease now valid found active owned =
      let f : Subscription → Subscription =
        λ s. record s { lease_expires_at = some (now + lease) } in
      let p : Subscription → Bool = λ s. s.name == name && (is_lease_of owner s && s.active) in
      let of_owner : is_lease_of owner sub ≡ true = rw owned (==_refl owner) in
      let met : p sub ≡ true =
        rw (find-passes name sub t.subscriptions found, of_owner, active) refl in
      (
        _,
        _,
        refl,
        updated-Owns t sub p f valid found (λ o. refl) met active owned,
        pending_in-changed t _ sub sub.last_event_id (some (now + lease)),
      )

  advances_lem :
      (t : Tables) (sub : Subscription) (k : ℕ)
      → EventsValid t.events
      → find (λ s. s.name == name) t.subscriptions ≡ some sub
      → sub.active ≡ true
      → sub.lease_owner ≡ some owner
      → pending_in t sub ≢ []
      → let last = last_id (take (suc k) (pending_in t sub)) in
        let sub' = record sub { last_event_id = last } in
        (db : Database) × (sub.last_event_id < last)
        × (advance_subscription_cursor (queries none) sub.id last (at_rest t) ≡ (ok tt, db))
        × Owns name owner db sub'
        × (pending db sub' ≡ drop (suc k) (pending_in t sub))
  unfolding advance_subscription_cursor update_cursor
  advances_lem t sub k valid found active owned more =
      let last = last_id (take (suc k) (pending_in t sub)) in
      let f : Subscription → Subscription = λ s. record s { last_event_id = last } in
      let p : Subscription → Bool = λ s. s.id == sub.id in
      let (beyond, rest) = moved_lem t sub k (valid-Rises t valid) more in
      (
        _,
        beyond,
        refl,
        updated-Owns t sub p f valid found (λ o. refl) (==_refl sub.id) active owned,
        pending_in-changed t _ sub last sub.lease_expires_at ∙ rest,
      )

  pub sql-Reader : Reader (sqlite_engine connection) name owner (Owns name owner) pending (λ n. n)
  unfolding get_subscription_by_name select_subscription
  sql-Reader = record {
    active = λ db sub o. o.active;
    loads = λ db sub o. rw o.rests (rw o.found refl);
    reads =
        λ db sub limit o. rw o.rests (reads_lem o.tables sub limit (valid-Rises o.tables o.valid));
    renews = λ db sub lease now o.
        rw o.rests (renews_lem o.tables sub lease now o.valid o.found o.active o.owned);
    advances = λ db sub k o more.
        let at : pending_in o.tables sub ≢ [] = subst (λ d. pending d sub ≢ []) o.rests more in
        rw o.rests (advances_lem o.tables sub k o.valid o.found o.active o.owned at);
  }
