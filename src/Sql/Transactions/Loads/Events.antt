-- ===== src/Sql/Transactions/Loads/Events.antt =====
-- The events that the engine makes of the rows of a stream.
use mathlib.Core.List.{map-append}
use evercore.Base.{
  ◌++◌, ◌∙◌, ℕ, zero, suc, List, [], ◌∷◌, map, leb, ltb, ◌≡◌, refl, ap, ◌∙◌, ◌==◌, ◌&&◌, nat_eq,
  keep_if, Bool-cases, Option-cases, inl, inr,
}
use evercore.Types.{IdNamePair, SerializedEvent}
use evercore.Sql.Queries.{AggregateEventRow}
use evercore.Sql.Engine.Streams.{serialized}
use evercore.Sql.Tables.Rows.{EventRow, place, order_by}
use evercore.Sql.Tables.Streams.{joined, name_of_id}
use evercore.Sql.Transactions.Loads.{
  is_wanted, captured_rows, row_of_captured, earlier_events, later_events,
}

module _ {A B : Type 0} (f : A → B) (by : A → ℕ) (by' : B → ℕ)
    (same : (a : A) → by' (f a) ≡ by a) where
  map-place : (x : A) (xs : List A) → map f (place by x xs) ≡ place by' (f x) (map f xs)
  map-place x [] = refl
  map-place x (y ∷ ys) = elim (Bool-cases (leb (by x) (by y))) [
    | inl before ↦ rw (before, same x, same y) (rw before refl)
    | inr after ↦ rw (after, same x, same y) (rw after (ap (λ l. f y ∷ l) (map-place x ys)))
  ]

  -- Rows are in the order in which their images are.
  pub map-order_by : (xs : List A) → map f (order_by by xs) ≡ order_by by' (map f xs)
  map-order_by [] = refl
  map-order_by (x ∷ xs) = map-place x (order_by by xs) ∙ ap (place by' (f x)) (map-order_by xs)

module _ (aggregate_id after : ℕ) where
  pub serialized-earlier :
      (types : List IdNamePair) (rows : List EventRow)
      → map (serialized aggregate_id) (joined types (keep_if (is_wanted aggregate_id after) rows))
        ≡ earlier_events types aggregate_id after rows
  unfolding joined
  serialized-earlier types [] = refl
  serialized-earlier types (row ∷ rows) =
      let rest = serialized-earlier types rows in
      elim (Bool-cases (is_wanted aggregate_id after row)) [
        | inr other ↦ rw other rest
        | inl wanted ↦ elim (Option-cases (name_of_id row.event_type_id types)) [
          | inl unnamed ↦ rw wanted (rw (unnamed, joined) rest)
          | inr (name, named) ↦ rw wanted (
              rw (named, joined)
                (let read : AggregateEventRow = record {
                  sequence = row.sequence;
                  event_type = name;
                  state = row.state;
                  event_time = row.event_time;
                  reference = row.reference;
                } in
                  ap (λ l. serialized aggregate_id read ∷ l) rest))
        ]
      ]

  pub serialized-later :
      (clock : ℕ → ℕ) (es : List SerializedEvent)
      → map (serialized aggregate_id) (captured_rows clock aggregate_id after es)
        ≡ later_events clock aggregate_id after es
  serialized-later clock [] = refl
  serialized-later clock (e ∷ es) =
      let rest = serialized-later (λ i. clock (suc i)) es in
      elim (Bool-cases (e.aggregate_id == aggregate_id && ltb after e.sequence)) [
        | inl wanted ↦
            rw wanted (ap (λ l. serialized aggregate_id (row_of_captured (clock zero) e) ∷ l) rest)
        | inr other ↦ rw other rest
      ]

-- The events read of the earlier rows and the captured ones, in order.
pub ordered_events :
    (types : List IdNamePair) (aggregate_id after : ℕ) (clock : ℕ → ℕ) (rows : List EventRow)
    (es : List SerializedEvent)
    → map (serialized aggregate_id) (
        order_by
          (λ r. r.sequence)
          (joined types (keep_if (is_wanted aggregate_id after) rows)
            ++ captured_rows clock aggregate_id after es))
      ≡ order_by
          (λ e. e.sequence)
          (earlier_events types aggregate_id after rows ++ later_events clock aggregate_id after es)
ordered_events types aggregate_id after clock rows es =
    let old = joined types (keep_if (is_wanted aggregate_id after) rows) in
    let new = captured_rows clock aggregate_id after es in
    map-order_by (serialized aggregate_id) (λ r. r.sequence) (λ e. e.sequence) (λ r. refl)
      (old ++ new)
    ∙ ap (order_by (λ e. e.sequence)) (
        map-append (serialized aggregate_id) old new
        ∙ ap (λ l. l ++ map (serialized aggregate_id) new)
            (serialized-earlier aggregate_id after types rows)
        ∙ ap (λ l. earlier_events types aggregate_id after rows ++ l)
            (serialized-later aggregate_id after clock es))
