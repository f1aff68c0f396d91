-- ===== src/Sql/Postgres.antt =====
-- evercorepostgres/engine.go and evercorepostgres/engine_subscriptions_raw.go. They are the SQLite
-- engine's but for the two lists of types, the events of an aggregate, and the query for a
-- subscription's events, whose placeholders have numbers.
pub mod Binding
pub mod Agreement
use evercore.Base.{
  ℕ, ◌+◌, ◌-◌, String, Bool, List, [], ◌∷◌, ◌++◌, Option, none, some, map, get_elem?, if◌then◌else◌,
}
use evercore.Base.Outcome.{M, Outcome, ok, err, panic, external, ◌>>=◌, pure, fail}
use evercore.Types.{IdNamePair, SerializedEvent, Subscription}
use evercore.Engine.{StorageEngine}
use evercore.Sql.Errors.{wrap_error, is_no_rows, storing, absent_as}
use evercore.Sql.Queries.{
  Queries, Connection, Condition, EventLogRow, aggregate_type_is, natural_key_is, event_type_among,
  event_type_is,
}
use evercore.Sql.Engine.Streams.{serialized}
use evercore.Sql.Engine.Subscriptions.{scanned, has_multi_event_types}
use evercore.Sql.Engine.Interface.{sqlite_engine}

-- The test of the error is the other way round than in SQLite's engine.
unfoldable pub unless_no_rows : {A : Type 0} → String → List A → Outcome (List A) → Outcome (List A)
unless_no_rows msg items (ok xs) = ok xs
unless_no_rows msg items (err e) = if is_no_rows e then err (wrap_error msg e) else ok items
unless_no_rows msg items (panic m) = panic m

-- A condition of the query, with the number of its placeholder.
pub data Clause : Type 0 where
  aggregate_type_at : ℕ → Clause
  natural_key_at : ℕ → Clause
  event_type_among_at : ℕ → Clause
  event_type_at : ℕ → Clause

pub data Argument : Type 0 where
  number : ℕ → Argument
  text : String → Argument

-- `q`, `args` and `idx` while the query is put together. The cursor is the first argument.
pub record Query : Type 0 where
  pub clauses : List Clause
  pub args : List Argument
  pub idx : ℕ

unfoldable pub first_query : Subscription → Query
first_query sub = record { clauses = []; args = number sub.last_event_id ∷ []; idx = 2 }

unfoldable pub and_where : (ℕ → Clause) → Argument → Query → Query
and_where clause argument q = record {
  clauses = q.clauses ++ clause q.idx ∷ [];
  args = q.args ++ argument ∷ [];
  idx = q.idx + 1;
}

unfoldable pub and_type : Option ℕ → Query → Query
unfolding and_where
and_type none q = q
and_type (some id) q = and_where aggregate_type_at (number id) q

unfoldable pub and_key : Option String → Query → Query
unfolding and_where
and_key none q = q
and_key (some key) q = and_where natural_key_at (text key) q

unfoldable pub and_event_type : Bool → Subscription → Query → Query
unfolding and_where
and_event_type multi sub q =
    if multi
    then and_where event_type_among_at (number sub.id) q
    else elim sub.event_type_id [ none ↦ q | some id ↦ and_where event_type_at (number id) q ]

unfoldable pub filtered : Bool → Subscription → Query
unfolding first_query and_type and_key and_event_type
filtered multi sub =
    and_event_type multi sub
      (and_key sub.aggregate_key (and_type sub.aggregate_type_id (first_query sub)))

-- What the database makes of a placeholder: the argument of that number, counted from 1.
abbrev pub argument_at : ℕ → List Argument → Option Argument
argument_at k args = get_elem? args (k - 1)

abbrev pub as_number : {B : Type 0} → (ℕ → B) → Option Argument → Option B
as_number f (some (number n)) = some (f n)
as_number f _ = none

abbrev pub as_text : {B : Type 0} → (String → B) → Option Argument → Option B
as_text f (some (text s)) = some (f s)
as_text f _ = none

unfoldable pub bind_clause : List Argument → Clause → Option Condition
bind_clause args (aggregate_type_at k) = as_number aggregate_type_is (argument_at k args)
bind_clause args (natural_key_at k) = as_text natural_key_is (argument_at k args)
bind_clause args (event_type_among_at k) = as_number event_type_among (argument_at k args)
bind_clause args (event_type_at k) = as_number event_type_is (argument_at k args)

abbrev pub both : {A B C : Type 0} → (A → B → C) → Option A → Option B → Option C
both f (some a) (some b) = some (f a b)
both f _ _ = none

unfoldable pub bind_clauses : List Argument → List Clause → Option (List Condition)
unfolding bind_clause
bind_clauses args [] = some []
bind_clauses args (c ∷ cs) = both (λ d ds. d ∷ ds) (bind_clause args c) (bind_clauses args cs)

-- The query that is sent, with the limit as its last argument: `WHERE id > $1 … LIMIT $idx`.
unfoldable pub bind_query : Query → ℕ → Option ((ℕ × ℕ) × List Condition)
unfolding bind_clauses
bind_query q limit =
    let args = q.args ++ number limit ∷ [] in
    let ends =
      both (λ after count. (after, count)) (as_number (λ n. n) (argument_at 1 args))
        (as_number (λ n. n) (argument_at q.idx args)) in
    both (λ e cs. (e, cs)) ends (bind_clauses args q.clauses)

module _ {D : Type 0} (queries : Queries D) where
  unfoldable pub send : Option ((ℕ × ℕ) × List Condition) → M D (List EventLogRow)
  send none = fail (external "there is no parameter")
  send (some ((after, count), conditions)) = queries.select_events after conditions count

  unfoldable pub get_events_for_subscription : Subscription → ℕ → M D (List SerializedEvent)
  unfolding has_multi_event_types filtered bind_query send
  get_events_for_subscription sub limit = do
    multi ←
        storing "failed to check subscription event types" (has_multi_event_types queries sub.id)
    rows ←
        storing "failed to query events for subscription"
          (absent_as [] (send (bind_query (filtered multi sub) limit)))
    pure (map scanned rows)

  unfoldable pub get_aggregate_types : M D (List IdNamePair)
  unfolding unless_no_rows
  get_aggregate_types d =
      let r = queries.get_aggregate_types d in
      (unless_no_rows "failed to get events for aggregate" [] r.0, r.1)

  unfoldable pub get_event_types : M D (List IdNamePair)
  unfolding unless_no_rows
  get_event_types d =
      let r = queries.get_event_types d in
      (unless_no_rows "failed to get snapshot for aggregate" [] r.0, r.1)

  unfoldable pub get_events_for_aggregate : ℕ → ℕ → M D (List SerializedEvent)
  get_events_for_aggregate aggregate_id after_sequence = do
    rows ← absent_as [] (queries.get_events_for_aggregate aggregate_id after_sequence)
    pure (map (serialized aggregate_id) rows)

abbrev pub postgres_engine : {D Tx : Type 0} → Connection D Tx → StorageEngine D Tx
postgres_engine db = record (sqlite_engine db) {
  get_aggregate_types = λ tx. get_aggregate_types (db.new tx);
  get_event_types = λ tx. get_event_types (db.new tx);
  get_events_for_aggregate = λ tx. get_events_for_aggregate (db.new tx);
  get_events_for_subscription = get_events_for_subscription (db.new none);
}
