-- ===== src/Sql/Reads/Refinement.antt =====
-- The SQL engines read for a subscription what the in-memory engine reads, but for the references.
use evercore.Base.{
  take-map, ℕ, none, nat_eq, Bool, true, false, map, take, keep_if, ◌≡◌, sym, ap, ◌∙◌, inl, inr,
  Bool-cases,
}
use evercore.Base.Outcome.{ok}
use evercore.Types.{Subscription}
use evercore.Memory.State.{Memory}
use evercore.Memory.Events.{has_event_types, event_type_set}
use evercore.Memory.Events.Pending.{pending}
use evercore.Sql.Engine.Subscriptions as Sql
use evercore.Sql.Errors.{is_no_rows}
use evercore.Sql.Engine.Subscriptions.{conditions, scanned}
use evercore.Sql.Tables.Rows.{Tables}
use evercore.Sql.Tables.Database.{at_rest, queries}
use evercore.Sql.Tables.Subscriptions.{event_log, select_events, select_event_type_of}
use evercore.Sql.Reads.{Represents, unreferenced}
use evercore.Sql.Reads.Pending.{passes, rows-pending, rows-ordered}

module _ (t : Tables) (m : Memory) (v : Represents t m) (sub : Subscription) (limit : ℕ) where
  selected :
      (multi : Bool)
      → has_event_types m sub ≡ multi
      → select_events sub.last_event_id (conditions multi sub) limit t
        ≡ (ok (take limit (keep_if (passes t m v sub sub.last_event_id) (event_log t t.events))), t)
  unfolding select_events
  selected multi e = rw (sym e) (
      ap (λ l. (ok (take limit l), t))
        (rows-ordered t m v sub sub.last_event_id 0 m.captured_events t.events v.logged v.known).1)

  rows_lem :
      map scanned (take limit (keep_if (passes t m v sub sub.last_event_id) (event_log t t.events)))
      ≡ map unreferenced (take limit (pending m sub))
  rows_lem =
      sym (take-map scanned limit _)
      ∙ ap (take limit)
          (rows-pending t m v sub sub.last_event_id 0 m.captured_events t.events v.logged v.known)
      ∙ take-map unreferenced limit _

  -- Over tables that hold what an in-memory engine holds, the SQL engine's read of a subscription
  -- returns the first of the events that are pending for it in memory, as many as the limit
  -- allows, without their references, and changes nothing.
  pub get_events_for_subscription-pending_sql :
      Sql.get_events_for_subscription (queries none) sub limit (at_rest t)
      ≡ (ok (map unreferenced (take limit (pending m sub))), at_rest t)
  unfolding Sql.get_events_for_subscription select_event_type_of has_event_types event_type_set
      is_no_rows
  get_events_for_subscription-pending_sql =
      let done = ap (λ l. (ok l, at_rest t)) rows_lem in
      elim (Bool-cases (has_event_types m sub)) [
        | inl some_types ↦ rw (v.multi sub.id ∙ some_types) (rw (selected true some_types) done)
        | inr no_types ↦ rw (v.multi sub.id ∙ no_types) (rw (selected false no_types) done)
      ]
