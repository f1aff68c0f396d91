-- ===== src/Sql/Transactions/Loads/Joined.antt =====
-- The rows of a stream after some records were appended to the events.
use mathlib.Core.List.{append_assoc, append-nil}
use evercore.Base.{
  ℕ, String, ◌+◌, zero, suc, List, [], ◌∷◌, ◌++◌, some, ◌≡◌, refl, ap, ◌∙◌, ◌==◌, ◌&&◌, nat_eq, ltb,
  arith, keep_if, keep_if-append, Bool-cases, inl, inr,
}
use evercore.Types.{IdNamePair, SerializedEvent, StorageEngineEvent}
use evercore.Sql.Tables.Rows.{Tables, EventRow, max_id}
use evercore.Sql.Tables.Streams.{joined, name_of_id}
use evercore.Sql.Reads.{row_of}
use evercore.Sql.Transactions.Appends.{Appended}
use evercore.Sql.Transactions.Loads.{Recorded, is_wanted, captured_rows}
use evercore.Store.Types as Store

joined-append :
    (types : List IdNamePair) (xs ys : List EventRow)
    → joined types (xs ++ ys) ≡ joined types xs ++ joined types ys
unfolding joined
joined-append types [] ys = refl
joined-append types (e ∷ xs) ys = ground (arith, joined-append types xs ys)

joined-named :
    (types : List IdNamePair) (e : EventRow) (name : String)
    → name_of_id e.event_type_id types ≡ some name
    → joined types (e ∷ [])
      ≡ record {
        sequence = e.sequence;
        event_type = name;
        state = e.state;
        event_time = e.event_time;
        reference = e.reference;
      }
        ∷ []
unfolding joined
joined-named types e name named = rw (named, joined) refl

module _ (u : Tables) (aggregate_id after : ℕ) where
  -- The row made of one event.
  joined-captured :
      (clock : ℕ → ℕ) (e : SerializedEvent) (es : List SerializedEvent) (r : StorageEngineEvent)
      (n id : ℕ)
      → r ≡ Store.storage_event (clock zero) id e
      → name_of_id id u.event_types ≡ some e.event_type
      → joined u.event_types (keep_if (is_wanted aggregate_id after) (row_of n r ∷ []))
          ++ captured_rows (λ i. clock (suc i)) aggregate_id after es
        ≡ captured_rows clock aggregate_id after (e ∷ es)
  unfolding joined Store.storage_event
  joined-captured clock e es r n id made named =
      rw made (elim (Bool-cases (e.aggregate_id == aggregate_id && ltb after e.sequence)) [
        | inl wanted ↦ rw wanted (
            ap (λ l. l ++ captured_rows (λ i. clock (suc i)) aggregate_id after es)
              (joined-named u.event_types (row_of n (Store.storage_event (clock zero) id e))
                e.event_type named))
        | inr other ↦ rw other refl
      ])

  pub joined-Appended :
      (clock : ℕ → ℕ) (events : List SerializedEvent) (rs : List StorageEngineEvent)
      (rows all : List EventRow)
      → Recorded u clock events rs
      → Appended rows rs all
      → joined u.event_types (keep_if (is_wanted aggregate_id after) all)
        ≡ joined u.event_types (keep_if (is_wanted aggregate_id after) rows)
          ++ captured_rows clock aggregate_id after events
  joined-Appended clock [] [] rows all made same = rw (same, append-nil) refl
  joined-Appended clock [] (r ∷ rs) rows all made same = absurd made
  joined-Appended clock (e ∷ es) [] rows all made same = absurd made
  joined-Appended clock (e ∷ es) (r ∷ rs) rows all (made, named, more) (free, grown) =
      let row = row_of (max_id (λ x. x.id) rows + 1) r in
      let later = captured_rows (λ i. clock (suc i)) aggregate_id after es in
      let old = keep_if (is_wanted aggregate_id after) rows in
      let new = keep_if (is_wanted aggregate_id after) (row ∷ []) in
      let split : joined u.event_types (keep_if (is_wanted aggregate_id after) (rows ++ row ∷ []))
          ≡ joined u.event_types old ++ joined u.event_types new =
        ap (joined u.event_types) (keep_if-append (is_wanted aggregate_id after) rows (row ∷ []))
        ∙ joined-append u.event_types old new in
      joined-Appended (λ i. clock (suc i)) es rs (rows ++ row ∷ []) all more grown
      ∙ ap (λ l. l ++ later) split
      ∙ append_assoc (joined u.event_types old) (joined u.event_types new) later
      ∙ ap (λ l. joined u.event_types old ++ l)
          (joined-captured clock e es r (max_id (λ x. x.id) rows + 1) r.event_type_id made named)
