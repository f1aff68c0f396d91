-- ===== src/Sql/Postgres/Agreement.antt =====
-- The two SQL engines against one another.
use evercore.Base.{ℕ, ◌≡◌}
use evercore.Base.Preserves.{resume_ext}
use evercore.Types.{Subscription}
use evercore.Sql.Errors.{storing}
use evercore.Sql.Queries.{Queries}
use evercore.Sql.Engine.Subscriptions as SqliteSubscriptions
use evercore.Sql.Engine.Subscriptions.{has_multi_event_types}
use evercore.Sql.Postgres.{get_events_for_subscription, send}
use evercore.Sql.Postgres.Binding.{bind_query-filtered}

module _ {D : Type 0} (queries : Queries D) where
  -- The PostgreSQL engine, whose query has numbered placeholders that the database binds to the
  -- arguments, reads for every subscription and limit what the SQLite engine reads over the same
  -- queries, in its outcome and in the state, errors included.
  pub get_events_for_subscription-sqlite :
      (sub : Subscription) (limit : ℕ) (d : D)
      → get_events_for_subscription queries sub limit d
        ≡ SqliteSubscriptions.get_events_for_subscription queries sub limit d
  unfolding get_events_for_subscription send SqliteSubscriptions.get_events_for_subscription
  get_events_for_subscription-sqlite sub limit d =
      resume_ext
        (storing "failed to check subscription event types" (has_multi_event_types queries sub.id)
          d)
        _ _ (λ multi s. rw (bind_query-filtered multi sub limit))
