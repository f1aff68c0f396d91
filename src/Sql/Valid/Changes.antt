-- ===== src/Sql/Valid/Changes.antt =====
-- Every statement keeps the constraints, so that they hold in all tables that come from empty ones.
use evercore.Base.{
  ◌<◌, All-append, arith, ℕ, String, Bool, ◌&&◌, List, [], ◌∷◌, Option, none, some, ◌==◌, nat_eq,
  string_eq, refl, sym, subst, inl, inr, Bool-cases,
}
use evercore.Types.{StorageEngineEvent, Snapshot}
use evercore.Sql.Tables.Rows.{Tables, SnapshotRow, no_tables, any, update}
use evercore.Sql.Tables.Streams as Streams
use evercore.Sql.Tables.Streams.{add_name, at_sequence, has_key, key_taken}
use evercore.Sql.Tables.Subscriptions as Subscriptions
use evercore.Sql.Tables.Subscriptions.{is_type_of}
use evercore.Sql.Valid.{
  Apart, IsValid, same_snapshot, same_aggregate, same_key, not_later, same_sequence,
  same_subscription, same_name, same_member, Change, adds_aggregate_type, adds_event_type,
  adds_aggregate, adds_aggregate_with_key, changes_key, adds_event, adds_snapshot, upserts,
  adds_member, activates, claims, renews, releases, advances, change, change_all,
}
use evercore.Sql.Valid.Apart.{Apart-append, Apart-update, any-none, max_id-fresh, max_id-later}
use evercore.Sql.Valid.Keys.{update-Apart, update-none, is_it, keyed}
use evercore.Sql.Valid.Updates.{
  add_name-Valid, enter-Valid, assemble, with_aggregates, with_subscriptions, updated,
}

module _ (t : Tables) (v : IsValid t) where
  add_aggregate_with_natural_key-IsValid :
      (type_id : ℕ) (key : String)
      → IsValid (Streams.add_aggregate_with_natural_key type_id key t).1
  unfolding Streams.add_aggregate_with_natural_key
  add_aggregate_with_natural_key-IsValid type_id key =
      elim (Bool-cases (any (has_key key) t.aggregates)) [
        | inl taken ↦ rw taken v
        | inr free ↦
            rw free (with_aggregates t v _ (enter-Valid type_id (some key) t free v.aggregates))
      ]

  change_aggregate_natural_key-IsValid :
      (key : String) (id : ℕ) → IsValid (Streams.change_aggregate_natural_key key id t).1
  unfolding Streams.change_aggregate_natural_key
  change_aggregate_natural_key-IsValid key id =
      let (ids, keys) = v.aggregates in
      let rows = update (is_it id key) (keyed id key) t.aggregates in
      let ids' : Apart same_aggregate rows =
        Apart-update same_aggregate (is_it id key) (keyed id key) t.aggregates (λ x o. refl)
          (λ x o. refl) ids in
      elim (Bool-cases (any (is_it id key) t.aggregates)) [
        | inr absent ↦ rw absent (
            with_aggregates t v rows
              (ids', subst (Apart same_key) (sym (update-none id key t.aggregates absent)) keys))
        | inl there ↦ elim (Bool-cases (key_taken id key t.aggregates)) [
          | inl taken ↦ rw (there, taken) v
          | inr free ↦
              rw (there, free)
                (with_aggregates t v rows (ids', update-Apart id key t.aggregates free ids keys))
        ]
      ]

  add_event-IsValid : (e : StorageEngineEvent) → IsValid (Streams.add_event e t).1
  unfolding Streams.add_event
  add_event-IsValid e =
      let (ids, positive, sequences) = v.events in
      elim (Bool-cases (any (at_sequence e.aggregate_id e.sequence) t.events)) [
        | inl taken ↦ rw taken v
        | inr free ↦ rw free (
            assemble _ v.aggregate_types v.event_types v.aggregates
              (
                Apart-append not_later t.events _ (max_id-later (λ r. r.id) t.events) ids,
                All-append (λ r. 0 < r.id) t.events _ positive (omega arith, tt),
                Apart-append same_sequence t.events _ free sequences,
              )
              v.snapshots v.subscriptions v.members)
      ]

  add_snapshot-IsValid : (s : Snapshot) → IsValid (Streams.add_snapshot s t).1
  unfolding Streams.add_snapshot
  add_snapshot-IsValid s =
      let twin : SnapshotRow → Bool =
        λ r. r.aggregate_id == s.aggregate_id && r.sequence == s.sequence in
      elim (Bool-cases (any twin t.snapshots)) [
        | inl taken ↦ rw taken v
        | inr free ↦ rw free (
            assemble _ v.aggregate_types v.event_types v.aggregates v.events
              (Apart-append same_snapshot t.snapshots _ free v.snapshots) v.subscriptions v.members)
      ]

  upsert_subscription-IsValid :
      (name : String) (at et : Option ℕ) (key : Option String) (from : String) (id : ℕ)
      (ts : Option ℕ)
      → IsValid (Subscriptions.upsert_subscription name at et key from id ts t).1
  unfolding Subscriptions.upsert_subscription
  upsert_subscription-IsValid name at et key from id ts =
      let (ids, names) = v.subscriptions in
      elim (Bool-cases (any (λ s. s.name == name) t.subscriptions)) [
        | inl known ↦ rw known (updated t v _ _ (λ s. refl) (λ s. refl))
        | inr fresh ↦ rw fresh (
            with_subscriptions t v _ (
              Apart-append same_subscription t.subscriptions _
                  (max_id-fresh (λ s. s.id) t.subscriptions) ids,
              Apart-append same_name t.subscriptions _ fresh names,
            ))
      ]

  insert_subscription_event_type-IsValid :
      (id type_id : ℕ) → IsValid (Subscriptions.insert_subscription_event_type id type_id t).1
  unfolding Subscriptions.insert_subscription_event_type
  insert_subscription_event_type-IsValid id type_id =
      elim (Bool-cases (any (is_type_of id type_id) t.subscription_event_types)) [
        | inl known ↦ rw known v
        | inr fresh ↦ rw fresh (
            assemble _ v.aggregate_types v.event_types v.aggregates v.events v.snapshots
              v.subscriptions
              (Apart-append same_member t.subscription_event_types _ fresh v.members))
      ]

change-IsValid : (c : Change) (t : Tables) → IsValid t → IsValid (change c t)
unfolding change Streams.add_aggregate_type Streams.add_event_type Streams.add_aggregate
    Subscriptions.update_active Subscriptions.update_lease_if_free Subscriptions.update_lease_of
    Subscriptions.clear_lease_of Subscriptions.update_cursor
change-IsValid (adds_aggregate_type name) t v =
    assemble _ (add_name-Valid _ name t.aggregate_types v.aggregate_types) v.event_types
      v.aggregates v.events v.snapshots v.subscriptions v.members
change-IsValid (adds_event_type name) t v =
    assemble _ v.aggregate_types (add_name-Valid _ name t.event_types v.event_types) v.aggregates
      v.events v.snapshots v.subscriptions v.members
change-IsValid (adds_aggregate type_id) t v =
    with_aggregates t v _
      (enter-Valid type_id none t (any-none _ t.aggregates (λ a. refl)) v.aggregates)
change-IsValid (adds_aggregate_with_key type_id key) t v =
    add_aggregate_with_natural_key-IsValid t v type_id key
change-IsValid (changes_key key id) t v = change_aggregate_natural_key-IsValid t v key id
change-IsValid (adds_event e) t v = add_event-IsValid t v e
change-IsValid (adds_snapshot s) t v = add_snapshot-IsValid t v s
change-IsValid (upserts name at et key from id ts) t v =
    upsert_subscription-IsValid t v name at et key from id ts
change-IsValid (adds_member id type_id) t v = insert_subscription_event_type-IsValid t v id type_id
change-IsValid (activates b id) t v =
    updated t v _ (λ s. record s { active = b }) (λ s. refl) (λ s. refl)
change-IsValid (claims owner until name now) t v =
    updated t v _ (λ s. record s { lease_owner = some owner; lease_expires_at = some until })
      (λ s. refl) (λ s. refl)
change-IsValid (renews until name owner) t v =
    updated t v _ (λ s. record s { lease_expires_at = some until }) (λ s. refl) (λ s. refl)
change-IsValid (releases name owner) t v =
    updated t v _ (λ s. record s { lease_owner = none; lease_expires_at = none }) (λ s. refl)
      (λ s. refl)
change-IsValid (advances cursor id) t v =
    updated t v _ (λ s. record s { last_event_id = cursor }) (λ s. refl) (λ s. refl)

no_tables-IsValid : IsValid no_tables
no_tables-IsValid = assemble no_tables (tt, tt) (tt, tt) (tt, tt) (tt, tt, tt) tt (tt, tt) tt

change_all-Valid : (cs : List Change) (t : Tables) → IsValid t → IsValid (change_all cs t)
unfolding change_all
change_all-Valid [] t v = v
change_all-Valid (c ∷ cs) t v = change_all-Valid cs (change c t) (change-IsValid c t v)

-- Whatever statements are made on empty tables, in any order, the UNIQUE constraints and primary
-- keys hold: ids and names of types, ids and natural keys of aggregates, sequences of events in
-- an aggregate, sequences of snapshots in an aggregate, ids and names of subscriptions, and the
-- event types of a subscription are distinct; and the ids of events ascend from 1 on.
pub change_all-IsValid : (cs : List Change) → IsValid (change_all cs no_tables)
change_all-IsValid cs = change_all-Valid cs no_tables no_tables-IsValid
