-- ===== src/Sql/Delivery.antt =====
-- A durable runner over a SQL engine.
pub mod Rising
pub mod Cursor
pub mod Updates
pub mod Reader
pub mod Runs
use evercore.Base.{
  ℕ, String, Bool, List, Option, some, true, map, keep_if, ltb, ◌&&◌, ◌==◌, ◌≡◌, nat_eq, string_eq,
}
use evercore.Types.{SerializedEvent, Subscription}
use evercore.Sql.Queries.{EventLogRow}
use evercore.Sql.Engine.Subscriptions.{conditions, scanned}
use evercore.Sql.Tables.Rows.{Tables, find, any, order_by}
use evercore.Sql.Tables.Subscriptions.{event_log, meets_all}
use evercore.Sql.Tables.Database.{Database, at_rest}
use evercore.Sql.Valid.{EventsValid}

abbrev pub has_types : Tables → Subscription → Bool
has_types t sub = any (λ r. r.0 == sub.id) t.subscription_event_types

-- Whether a row of the view passes the filter of a subscription, wherever its cursor stands.
abbrev pub passes : Tables → Subscription → EventLogRow → Bool
passes t sub row = meets_all t row (conditions (has_types t sub) sub)

-- The rows after a cursor that pass.
unfoldable pub after : (EventLogRow → Bool) → ℕ → List EventLogRow → List EventLogRow
after passing cursor = keep_if (λ r. ltb cursor r.id && passing r)

-- All that a subscription has still to read of the committed tables.
abbrev pub pending_in : Tables → Subscription → List SerializedEvent
pending_in t sub = map scanned (after (passes t sub) sub.last_event_id (event_log t t.events))

abbrev pub pending : Database → Subscription → List SerializedEvent
pending db sub = pending_in db.committed sub

-- The database is at rest, its events are valid, and the first row of the name is this
-- subscription, active and the owner's.
pub record Owns (name owner : String) (db : Database) (sub : Subscription) : Type 0 where
  pub tables : Tables
  pub rests : db ≡ at_rest tables
  pub valid : EventsValid tables.events
  pub found : find (λ s. s.name == name) tables.subscriptions ≡ some sub
  pub active : sub.active ≡ true
  pub owned : sub.lease_owner ≡ some owner
