-- ===== src/Sql/Valid/Updates.antt =====
-- Tables of which one table has changed.
use evercore.Base.{
  ℕ, String, Bool, false, List, Option, ◌==◌, ◌≡◌, nat_eq, string_eq, refl, inl, inr, Bool-cases,
}
use evercore.Types.{IdNamePair, Subscription}
use evercore.Sql.Tables.Rows.{Tables, AggregateRow, any, update}
use evercore.Sql.Tables.Streams as Streams
use evercore.Sql.Tables.Streams.{add_name, at_sequence, has_key, key_taken}
use evercore.Sql.Valid.{
  Apart, IsValid, TypesValid, AggregatesValid, EventsValid, SubscriptionsValid, same_snapshot,
  same_pair_id, same_pair_name, same_aggregate, same_key, same_subscription, same_name, same_member,
}
use evercore.Sql.Valid.Apart.{Apart-append, Apart-update, max_id-fresh}

pub add_name-Valid :
    (column name : String) (types : List IdNamePair)
    → TypesValid types
    → TypesValid (add_name column name types).1
unfolding add_name
add_name-Valid column name types (ids, names) =
    elim (Bool-cases (any (λ p. p.name == name) types)) [
      | inl known ↦ rw known (ids, names)
      | inr fresh ↦ rw fresh (
        Apart-append same_pair_id types _ (max_id-fresh (λ p. p.id) types) ids,
        Apart-append same_pair_name types _ fresh names,
      )
    ]

-- An update that keeps ids and names.
update-Valid :
    (p : Subscription → Bool) (f : Subscription → Subscription) (subs : List Subscription)
    → ((s : Subscription) → (f s).id ≡ s.id)
    → ((s : Subscription) → (f s).name ≡ s.name)
    → SubscriptionsValid subs
    → SubscriptionsValid (update p f subs)
update-Valid p f subs ids names (i, n) = (
  Apart-update same_subscription p f subs (λ x o. rw (ids x) refl) (λ x o. rw (ids o) refl) i,
  Apart-update same_name p f subs (λ x o. rw (names x) refl) (λ x o. rw (names o) refl) n,
)

pub enter-Valid :
    (type_id : ℕ) (key : Option String) (t : Tables)
    → any
        (λ a. same_key a (record { id = 0; aggregate_type_id = type_id; natural_key = key }))
        t.aggregates
      ≡ false
    → AggregatesValid t.aggregates
    → AggregatesValid (Streams.enter type_id key t).1.aggregates
enter-Valid type_id key t free (ids, keys) = (
  Apart-append same_aggregate t.aggregates _ (max_id-fresh (λ a. a.id) t.aggregates) ids,
  Apart-append same_key t.aggregates _ free keys,
)

-- The constraints of all tables, given table by table.
pub assemble :
    (t : Tables)
    → TypesValid t.aggregate_types
    → TypesValid t.event_types
    → AggregatesValid t.aggregates
    → EventsValid t.events
    → Apart same_snapshot t.snapshots
    → SubscriptionsValid t.subscriptions
    → Apart same_member t.subscription_event_types
    → IsValid t
assemble t at et a e sn s m = record {
  aggregate_types = at;
  event_types = et;
  aggregates = a;
  events = e;
  snapshots = sn;
  subscriptions = s;
  members = m;
}

module _ (t : Tables) (v : IsValid t) where
  pub with_aggregates :
      (rows : List AggregateRow) → AggregatesValid rows → IsValid (record t { aggregates = rows })
  with_aggregates rows a =
      assemble _ v.aggregate_types v.event_types a v.events v.snapshots v.subscriptions v.members

  pub with_subscriptions :
      (subs : List Subscription)
      → SubscriptionsValid subs
      → IsValid (record t { subscriptions = subs })
  with_subscriptions subs s =
      assemble _ v.aggregate_types v.event_types v.aggregates v.events v.snapshots s v.members

  -- An update of the subscriptions that keeps ids and names.
  pub updated :
      (p : Subscription → Bool) (f : Subscription → Subscription)
      → ((s : Subscription) → (f s).id ≡ s.id)
      → ((s : Subscription) → (f s).name ≡ s.name)
      → IsValid (record t { subscriptions = update p f t.subscriptions })
  updated p f ids names =
      with_subscriptions _ (update-Valid p f t.subscriptions ids names v.subscriptions)
