-- ===== src/Sql/Tables/Subscriptions.antt =====
-- The statements on subscriptions, and the query of the view `event_log`. The columns that keep the
-- times of creation and update are left out, since nothing reads them.
use evercore.Base.{
  ℕ, ◌+◌, String, Bool, true, false, ◌&&◌, List, [], ◌∷◌, ◌++◌, Option, none, some, take, keep_if,
  ltb, leb, ◌==◌, if◌then◌else◌, nat_eq, string_eq,
}
use evercore.Base.Outcome.{M, ok}
use evercore.Types.{Subscription}
use evercore.Sql.Queries.{
  EventLogRow, Condition, aggregate_type_is, natural_key_is, event_type_among, event_type_is,
}
use evercore.Sql.Tables.Rows.{
  Tables, EventRow, AggregateRow, one_row, one_row_as, find, any, max_id, order_by, update, count,
}
use evercore.Sql.Tables.Streams.{name_of_id}

-- `ON CONFLICT(name) DO UPDATE`
unfoldable pub upsert_subscription :
    String → Option ℕ → Option ℕ → Option String → String → ℕ → Option ℕ → M Tables (Unit {0})
upsert_subscription name aggregate_type_id event_type_id aggregate_key start_from start_event_id
      start_timestamp t =
    let excluded : Subscription = record {
      id = max_id (λ s. s.id) t.subscriptions + 1;
      name = name;
      aggregate_type_id = aggregate_type_id;
      event_type_id = event_type_id;
      aggregate_key = aggregate_key;
      start_from = start_from;
      start_event_id = start_event_id;
      start_timestamp = start_timestamp;
      last_event_id = 0;
      active = true;
      lease_owner = none;
      lease_expires_at = none;
    } in
    let change : Subscription → Subscription = λ s. record s {
      aggregate_type_id = aggregate_type_id;
      event_type_id = event_type_id;
      aggregate_key = aggregate_key;
      start_from = start_from;
      start_event_id = start_event_id;
      start_timestamp = start_timestamp;
    } in
    let subscriptions =
      if any (λ s. s.name == name) t.subscriptions
      then update (λ s. s.name == name) change t.subscriptions
      else t.subscriptions ++ excluded ∷ [] in
    (ok tt, record t { subscriptions = subscriptions })

unfoldable pub select_subscription_id : String → M Tables ℕ
select_subscription_id name t =
    (one_row_as (λ s. s.id) (find (λ s. s.name == name) t.subscriptions), t)

abbrev pub is_type_of : ℕ → ℕ → ℕ × ℕ → Bool
is_type_of subscription_id event_type_id row = row.0 == subscription_id && row.1 == event_type_id

-- `INSERT OR IGNORE`
unfoldable pub insert_subscription_event_type : ℕ → ℕ → M Tables (Unit {0})
insert_subscription_event_type subscription_id event_type_id t = (
  ok tt,
  record t {
    subscription_event_types =
        if any (is_type_of subscription_id event_type_id) t.subscription_event_types
        then t.subscription_event_types
        else t.subscription_event_types ++ (subscription_id, event_type_id) ∷ [];
  },
)

unfoldable pub select_subscription : String → M Tables Subscription
select_subscription name t = (one_row (find (λ s. s.name == name) t.subscriptions), t)

unfoldable pub update_active : Bool → ℕ → M Tables (Unit {0})
update_active active id t = (
  ok tt,
  record t {
    subscriptions = update (λ s. s.id == id) (λ s. record s { active = active }) t.subscriptions;
  },
)

-- An update and the number of rows that it changes.
abbrev pub update_rows : (Subscription → Bool) → (Subscription → Subscription) → M Tables ℕ
update_rows p f t =
    (ok (count p t.subscriptions), record t { subscriptions = update p f t.subscriptions })

-- `lease_owner IS NULL OR lease_expires_at < …`: a null expiry is before no time.
abbrev pub is_lease_free : ℕ → Subscription → Bool
is_lease_free now s = elim s.lease_owner [
  | none ↦ true
  | some _ ↦ elim s.lease_expires_at [ none ↦ false | some exp ↦ ltb exp now ]
]

abbrev pub is_lease_of : String → Subscription → Bool
is_lease_of owner s = elim s.lease_owner [ none ↦ false | some o ↦ o == owner ]

unfoldable pub update_lease_if_free : String → ℕ → String → ℕ → M Tables ℕ
update_lease_if_free owner until name now =
    update_rows (λ s. s.name == name && (s.active && is_lease_free now s))
      (λ s. record s { lease_owner = some owner; lease_expires_at = some until })

unfoldable pub update_lease_of : ℕ → String → String → M Tables ℕ
update_lease_of until name owner =
    update_rows (λ s. s.name == name && (is_lease_of owner s && s.active))
      (λ s. record s { lease_expires_at = some until })

unfoldable pub clear_lease_of : String → String → M Tables (Unit {0})
clear_lease_of name owner t = (
  ok tt,
  record t {
    subscriptions =
        update (λ s. s.name == name && is_lease_of owner s)
          (λ s. record s { lease_owner = none; lease_expires_at = none }) t.subscriptions;
  },
)

-- `SELECT 1 … LIMIT 1`
unfoldable pub select_event_type_of : ℕ → M Tables ℕ
select_event_type_of subscription_id t = (
  one_row (if any (λ r. r.0 == subscription_id) t.subscription_event_types then some 1 else none),
  t,
)

-- The view `event_log`: an event with its aggregate and the names of the types, or no row where
-- one of them is missing.
abbrev pub log_row :
    EventRow → Option AggregateRow → Option String → Option String → List EventLogRow
log_row e (some a) (some aggregate_type) (some event_type) =
    record {
      id = e.id;
      aggregate_id = e.aggregate_id;
      natural_key = a.natural_key;
      sequence = e.sequence;
      aggregate_type_id = a.aggregate_type_id;
      aggregate_type = aggregate_type;
      event_type_id = e.event_type_id;
      event_type = event_type;
      event_time = e.event_time;
      state = e.state;
    }
    ∷ []
log_row e _ _ _ = []

abbrev pub aggregate_of : Tables → ℕ → Option AggregateRow
aggregate_of t id = find (λ a. a.id == id) t.aggregates

unfoldable pub aggregate_type_of : Tables → Option AggregateRow → Option String
unfolding name_of_id
aggregate_type_of t none = none
aggregate_type_of t (some a) = name_of_id a.aggregate_type_id t.aggregate_types

unfoldable pub event_log_row : Tables → EventRow → List EventLogRow
unfolding name_of_id aggregate_type_of
event_log_row t e =
    let a = aggregate_of t e.aggregate_id in
    log_row e a (aggregate_type_of t a) (name_of_id e.event_type_id t.event_types)

unfoldable pub event_log : Tables → List EventRow → List EventLogRow
unfolding event_log_row
event_log t [] = []
event_log t (e ∷ es) = event_log_row t e ++ event_log t es

unfoldable pub meets : Tables → EventLogRow → Condition → Bool
meets t row (aggregate_type_is id) = row.aggregate_type_id == id
meets t row (natural_key_is key) = elim row.natural_key [ none ↦ false | some k ↦ k == key ]
meets t row (event_type_among id) = any (is_type_of id row.event_type_id) t.subscription_event_types
meets t row (event_type_is id) = row.event_type_id == id

unfoldable pub meets_all : Tables → EventLogRow → List Condition → Bool
unfolding meets
meets_all t row [] = true
meets_all t row (c ∷ cs) = meets t row c && meets_all t row cs

unfoldable pub select_events : ℕ → List Condition → ℕ → M Tables (List EventLogRow)
unfolding event_log meets_all
select_events after_id conditions limit t =
    let rows =
      keep_if (λ r. ltb after_id r.id && meets_all t r conditions) (event_log t t.events) in
    (ok (take limit (order_by (λ r. r.id) rows)), t)

unfoldable pub update_cursor : ℕ → ℕ → M Tables (Unit {0})
update_cursor last_event_id id t = (
  ok tt,
  record t {
    subscriptions =
        update (λ s. s.id == id) (λ s. record s { last_event_id = last_event_id }) t.subscriptions;
  },
)

-- `MAX(id)` is null for no row.
unfoldable pub select_max_event_id : M Tables (Option ℕ)
select_max_event_id t =
    (ok (elim t.events [ [] ↦ none | _ ∷ _ ↦ some (max_id (λ e. e.id) t.events) ]), t)

unfoldable pub select_first_event_from : ℕ → M Tables ℕ
select_first_event_from ts t =
    let rows = order_by (λ e. e.id) (keep_if (λ e. leb ts e.event_time) t.events) in
    (one_row (elim rows [ [] ↦ none | e ∷ _ ↦ some e.id ]), t)
