-- ===== src/Sql/Engine/Subscriptions.antt =====
-- The methods of `SqliteStorageEngine` for subscriptions, with their statements written out.
use evercore.Base.{
  ℕ, ◌+◌, String, Bool, true, false, List, [], ◌∷◌, ◌++◌, Option, none, some, map, ◌==◌,
  if◌then◌else◌, with_default, nat_eq,
}
use evercore.Base.Outcome.{M, ◌>>=◌, ◌>>◌, pure}
use evercore.Types.{SerializedEvent, Subscription}
use evercore.Sql.Errors.{storing, absent_as}
use evercore.Sql.Queries.{
  Queries, EventLogRow, Condition, aggregate_type_is, natural_key_is, event_type_among,
  event_type_is,
}

-- The conditions that the three tests on a subscription add to its query.
unfoldable pub type_condition : Option ℕ → List Condition
type_condition none = []
type_condition (some t) = aggregate_type_is t ∷ []

unfoldable pub key_condition : Option String → List Condition
key_condition none = []
key_condition (some k) = natural_key_is k ∷ []

unfoldable pub event_type_condition : Bool → Subscription → List Condition
event_type_condition multi sub =
    if multi
    then event_type_among sub.id ∷ []
    else elim sub.event_type_id [ none ↦ [] | some t ↦ event_type_is t ∷ [] ]

-- `q` and `args`, less the cursor and the limit.
unfoldable pub conditions : Bool → Subscription → List Condition
unfolding type_condition key_condition event_type_condition
conditions multi sub =
    type_condition sub.aggregate_type_id
    ++ (key_condition sub.aggregate_key ++ event_type_condition multi sub)

-- The reference is no column of the view.
abbrev pub scanned : EventLogRow → SerializedEvent
scanned row = record {
  event_id = row.id;
  aggregate_id = row.aggregate_id;
  event_type = row.event_type;
  state = row.state;
  sequence = row.sequence;
  reference = "";
  event_time = row.event_time;
}

module _ {D : Type 0} (queries : Queries D) where
  unfoldable pub upsert_subscription :
      String → Option ℕ → Option ℕ → Option String → String → ℕ → Option ℕ → M D ℕ
  upsert_subscription name aggregate_type_id event_type_id aggregate_key start_from start_event_id
        start_timestamp =
      do
        storing "failed to upsert subscription" (
            queries.upsert_subscription name aggregate_type_id event_type_id aggregate_key
              start_from start_event_id start_timestamp)
        storing "failed to fetch subscription id" (queries.select_subscription_id name)

  unfoldable pub add_subscription_event_type : ℕ → ℕ → M D (Unit {0})
  add_subscription_event_type subscription_id event_type_id =
      storing "failed to add subscription event type"
        (queries.insert_subscription_event_type subscription_id event_type_id)

  unfoldable pub get_subscription_by_name : String → M D Subscription
  get_subscription_by_name name =
      storing "failed to get subscription" (queries.select_subscription name)

  unfoldable pub set_subscription_active : ℕ → Bool → M D (Unit {0})
  set_subscription_active id active =
      storing "failed to set subscription active" (queries.update_active active id)

  unfoldable pub claim_subscription : String → String → ℕ → ℕ → M D Bool
  claim_subscription name owner lease now = do
    n ←
        storing "failed to claim subscription"
          (queries.update_lease_if_free owner (now + lease) name now)
    pure (n == 1)

  unfoldable pub renew_subscription : String → String → ℕ → ℕ → M D Bool
  renew_subscription name owner lease now = do
    n ← storing "failed to renew subscription" (queries.update_lease_of (now + lease) name owner)
    pure (n == 1)

  unfoldable pub release_subscription : String → String → M D (Unit {0})
  release_subscription name owner =
      storing "failed to release subscription" (queries.clear_lease_of name owner)

  unfoldable pub has_multi_event_types : ℕ → M D Bool
  has_multi_event_types subscription_id =
      absent_as false (do one ← queries.select_event_type_of subscription_id; pure true)

  unfoldable pub get_events_for_subscription : Subscription → ℕ → M D (List SerializedEvent)
  unfolding has_multi_event_types conditions
  get_events_for_subscription sub limit = do
    multi ← storing "failed to check subscription event types" (has_multi_event_types sub.id)
    rows ←
        storing "failed to query events for subscription"
          (absent_as [] (queries.select_events sub.last_event_id (conditions multi sub) limit))
    pure (map scanned rows)

  unfoldable pub advance_subscription_cursor : ℕ → ℕ → M D (Unit {0})
  advance_subscription_cursor id last_event_id =
      storing "failed to advance subscription cursor" (queries.update_cursor last_event_id id)

  -- A null id is no event.
  unfoldable pub get_max_event_id : M D ℕ
  get_max_event_id = do
    id ← storing "failed to get max event id" queries.select_max_event_id
    pure (with_default id 0)

  unfoldable pub get_first_event_id_from_timestamp : ℕ → M D ℕ
  get_first_event_id_from_timestamp ts =
      storing "failed to get first event id from timestamp"
        (absent_as 0 (queries.select_first_event_from ts))
