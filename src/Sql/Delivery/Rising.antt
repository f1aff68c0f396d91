-- ===== src/Sql/Delivery/Rising.antt =====
-- Rows of the view in the order of their ids.
use evercore.Base.{
  ℕ, ◌≤◌, ◌<◌, Bool, false, List, [], ◌∷◌, Option, none, some, keep_if, All, ◌≡◌, ◌⊎◌, refl, ap,
  ◌∙◌, inl, inr, arith, Bool-cases,
}
use evercore.Sql.Queries.{EventLogRow}
use evercore.Sql.Tables.Rows.{Tables, EventRow, AggregateRow, place, order_by}
use evercore.Sql.Tables.Streams.{name_of_id}
use evercore.Sql.Tables.Subscriptions.{
  event_log, event_log_row, log_row, aggregate_of, aggregate_type_of,
}
use evercore.Sql.Valid.{Apart, not_later}

-- Every id lies beyond the one before it, the first beyond `lo`.
abbrev pub Rises : ℕ → List EventLogRow → Type 0
Rises lo [] = Unit
Rises lo (r ∷ rows) = (lo < r.id) × Rises r.id rows

pub Rises-less : (lo hi : ℕ) (rows : List EventLogRow) → lo ≤ hi → Rises hi rows → Rises lo rows
Rises-less lo hi [] h b = tt
Rises-less lo hi (r ∷ rows) h (b, bs) = (omega arith, bs)

pub keep_if-Rises :
    (p : EventLogRow → Bool) (lo : ℕ) (rows : List EventLogRow)
    → Rises lo rows
    → Rises lo (keep_if p rows)
keep_if-Rises p lo [] b = tt
keep_if-Rises p lo (r ∷ rows) (b, bs) =
    let rest = keep_if-Rises p r.id rows bs in
    elim (Bool-cases (p r)) [
      | inl keep ↦ rw keep (b, rest)
      | inr skip ↦ rw skip (Rises-less lo r.id _ (omega arith) rest)
    ]

place-Rises :
    (r : EventLogRow) (rows : List EventLogRow)
    → Rises r.id rows
    → place (λ x. x.id) r rows ≡ r ∷ rows
place-Rises r [] b = refl
place-Rises r (x ∷ rows) (b, bs) = ground arith

pub order_by-Rises :
    (lo : ℕ) (rows : List EventLogRow) → Rises lo rows → order_by (λ x. x.id) rows ≡ rows
order_by-Rises lo [] b = refl
order_by-Rises lo (r ∷ rows) (b, bs) =
    ap (place (λ x. x.id) r) (order_by-Rises r.id rows bs) ∙ place-Rises r rows bs

-- An event has one row in the view, with its id, or none.
log_row-cases :
    (e : EventRow) (a : Option AggregateRow) (at et : Option _)
    → (log_row e a at et ≡ []) ⊎ ((r : EventLogRow) × (log_row e a at et ≡ r ∷ []) × (r.id ≡ e.id))
log_row-cases e none at et = inl refl
log_row-cases e (some a) none et = inl refl
log_row-cases e (some a) (some x) none = inl refl
log_row-cases e (some a) (some x) (some y) = inr (_, refl, refl)

event_log-beyond :
    (t : Tables) (lo : ℕ) (e : EventRow) (es : List EventRow)
    → lo < e.id
    → Rises e.id (event_log t es)
    → Rises lo (event_log t (e ∷ es))
unfolding event_log event_log_row
event_log-beyond t lo e es h rest =
    let a = aggregate_of t e.aggregate_id in
    elim (log_row-cases e a (aggregate_type_of t a) (name_of_id e.event_type_id t.event_types)) [
      | inl absent ↦ rw absent (Rises-less lo e.id _ (omega arith) rest)
      | inr (r, one, same) ↦ rw one (rw same (h, rest))
    ]

later_rows :
    (e : EventRow) (es : List EventRow)
    → All (λ o. not_later e o ≡ false) es
    → All (λ o. e.id < o.id) es
later_rows e [] all = tt
later_rows e (o ∷ es) (a, all) = (ground arith, later_rows e es all)

pub event_log-Rises :
    (t : Tables) (lo : ℕ) (es : List EventRow)
    → All (λ o. lo < o.id) es
    → Apart not_later es
    → Rises lo (event_log t es)
unfolding event_log
event_log-Rises t lo [] all apart = tt
event_log-Rises t lo (e ∷ es) (h, all) (alone, apart) =
    event_log-beyond t lo e es h (event_log-Rises t e.id es (later_rows e es alone) apart)
