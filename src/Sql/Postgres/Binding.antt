-- ===== src/Sql/Postgres/Binding.antt =====
-- Every placeholder of the query has the argument that is meant.
use evercore.Base.{ℕ, String, Bool, true, false, Option, none, some, ◌≡◌, refl}
use evercore.Types.{Subscription}
use evercore.Sql.Engine.Subscriptions.{
  conditions, type_condition, key_condition, event_type_condition,
}
use evercore.Sql.Postgres.{
  filtered, first_query, and_where, and_type, and_key, and_event_type, bind_clause, bind_clauses,
  bind_query,
}

-- Whichever conditions the subscription has.
bind_query_each :
    (sub : Subscription) (limit : ℕ) (multi : Bool) (type_id : Option ℕ) (key : Option String)
    (event_type : Option ℕ)
    → let s = record sub {
      aggregate_type_id = type_id;
      aggregate_key = key;
      event_type_id = event_type;
    } in
      bind_query (filtered multi s) limit ≡ some ((sub.last_event_id, limit), conditions multi s)
unfolding filtered first_query and_where and_type and_key and_event_type bind_clause bind_clauses
    bind_query conditions type_condition key_condition event_type_condition
bind_query_each sub limit true none none t = refl
bind_query_each sub limit true none (some k) t = refl
bind_query_each sub limit true (some a) none t = refl
bind_query_each sub limit true (some a) (some k) t = refl
bind_query_each sub limit false none none none = refl
bind_query_each sub limit false none none (some t) = refl
bind_query_each sub limit false none (some k) none = refl
bind_query_each sub limit false none (some k) (some t) = refl
bind_query_each sub limit false (some a) none none = refl
bind_query_each sub limit false (some a) none (some t) = refl
bind_query_each sub limit false (some a) (some k) none = refl
bind_query_each sub limit false (some a) (some k) (some t) = refl

pub bind_query-filtered :
    (multi : Bool) (sub : Subscription) (limit : ℕ)
    → bind_query (filtered multi sub) limit
      ≡ some ((sub.last_event_id, limit), conditions multi sub)
bind_query-filtered multi sub limit =
    bind_query_each sub limit multi sub.aggregate_type_id sub.aggregate_key sub.event_type_id
