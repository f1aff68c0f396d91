-- ===== src/Sql/Tables/Rows.antt =====
-- The rows, and what the statements do with lists of rows.
use evercore.Base.{
  ℕ, suc, max, String, Bool, true, false, List, [], ◌∷◌, Option, none, some, leb, if◌then◌else◌,
}
use evercore.Base.Outcome.{Outcome, ok, err, no_rows}
use evercore.Types.{IdNamePair, Subscription}

pub record AggregateRow : Type 0 where
  pub id : ℕ
  pub aggregate_type_id : ℕ
  pub natural_key : Option String

pub record EventRow : Type 0 where
  pub id : ℕ
  pub aggregate_id : ℕ
  pub sequence : ℕ
  pub event_type_id : ℕ
  pub state : String
  pub event_time : ℕ
  pub reference : String

pub record SnapshotRow : Type 0 where
  pub id : ℕ
  pub aggregate_id : ℕ
  pub sequence : ℕ
  pub state : String

pub record Tables : Type 0 where
  pub aggregate_types : List IdNamePair
  pub event_types : List IdNamePair
  pub aggregates : List AggregateRow
  pub events : List EventRow
  pub snapshots : List SnapshotRow
  pub subscriptions : List Subscription
  pub subscription_event_types : List (ℕ × ℕ)

abbrev pub no_tables : Tables
no_tables = record {
  aggregate_types = [];
  event_types = [];
  aggregates = [];
  events = [];
  snapshots = [];
  subscriptions = [];
  subscription_event_types = [];
}

-- What a query for one row makes of the rows that it finds.
abbrev pub one_row : {A : Type 0} → Option A → Outcome A
one_row none = err no_rows
one_row (some a) = ok a

abbrev pub one_row_as : {A B : Type 0} → (A → B) → Option A → Outcome B
one_row_as f none = err no_rows
one_row_as f (some a) = ok (f a)

module _ {A : Type 0} where
  -- The first row that passes a test, and whether there is one.
  abbrev pub find : (A → Bool) → List A → Option A
  find p [] = none
  find p (x ∷ xs) = let rest = find p xs in if p x then some x else rest

  abbrev pub any : (A → Bool) → List A → Bool
  any p [] = false
  any p (x ∷ xs) = let rest = any p xs in if p x then true else rest

  -- `MAX(id)`, 0 for no row.
  abbrev pub max_id : (A → ℕ) → List A → ℕ
  max_id id [] = 0
  max_id id (x ∷ xs) = max (id x) (max_id id xs)

  -- `ORDER BY`: rows that compare equal keep their order.
  abbrev pub place : (A → ℕ) → A → List A → List A
  place by x [] = x ∷ []
  place by x (y ∷ ys) =
      let rest = place by x ys in if leb (by x) (by y) then x ∷ y ∷ ys else y ∷ rest

  abbrev pub order_by : (A → ℕ) → List A → List A
  order_by by [] = []
  order_by by (x ∷ xs) = place by x (order_by by xs)

  -- The row with the greatest value: `ORDER BY … DESC LIMIT 1`. Of rows that are equal in it, the
  -- first.
  abbrev pub greater : (A → ℕ) → A → Option A → Option A
  greater by x none = some x
  greater by x (some y) = if leb (by y) (by x) then some x else some y

  abbrev pub greatest : (A → ℕ) → List A → Option A
  greatest by [] = none
  greatest by (x ∷ xs) = greater by x (greatest by xs)

  -- `UPDATE … WHERE`
  abbrev pub update : (A → Bool) → (A → A) → List A → List A
  update p f [] = []
  update p f (x ∷ xs) = let rest = update p f xs in if p x then f x ∷ rest else x ∷ rest

  abbrev pub count : (A → Bool) → List A → ℕ
  count p [] = 0
  count p (x ∷ xs) = let rest = count p xs in if p x then suc rest else rest
