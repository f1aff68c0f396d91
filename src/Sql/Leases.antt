-- ===== src/Sql/Leases.antt =====
-- Leases over the tables of a SQL engine.
pub mod Rows
pub mod Foreign
pub mod Exclusion
use evercore.Base.{
  ℕ, ◌+◌, ◌≤◌, String, Bool, true, false, List, [], ◌∷◌, some, none, ◌==◌, ◌≡◌, string_eq, All,
}
use evercore.Types.{Subscription}
use evercore.Memory.Leases.Exclusion.{
  Call, upserts, adds_event_type, activates, claims, renews, releases, advances, IsLeased,
}
use evercore.Sql.Tables.Rows.{any}
use evercore.Sql.Tables.Database.{Database, queries}
use evercore.Sql.Engine.Subscriptions as Engine

-- The database after a call, outside of a transaction.
unfoldable pub step : Call → Database → Database
step (upserts name at et key from id ts) db =
    (Engine.upsert_subscription (queries none) name at et key from id ts db).1
step (adds_event_type id t) db = (Engine.add_subscription_event_type (queries none) id t db).1
step (activates id b) db = (Engine.set_subscription_active (queries none) id b db).1
step (claims name owner lease now) db =
    (Engine.claim_subscription (queries none) name owner lease now db).1
step (renews name owner lease now) db =
    (Engine.renew_subscription (queries none) name owner lease now db).1
step (releases name owner) db = (Engine.release_subscription (queries none) name owner db).1
step (advances id c) db = (Engine.advance_subscription_cursor (queries none) id c db).1

unfoldable pub run : List Call → Database → Database
unfolding step
run [] db = db
run (c ∷ cs) db = run cs (step c db)

-- If the row has this name, its lease is the owner's until then at least.
abbrev pub LeasedIf : String → String → ℕ → Subscription → Type 0
LeasedIf title owner until s = s.name ≡ title → IsLeased s owner until

-- There is a row of this name, and any such row is leased.
pub record LeasedRows (title owner : String) (until : ℕ) (subs : List Subscription) : Type 0 where
  pub present : any (λ s. s.name == title) subs ≡ true
  pub leased : All (LeasedIf title owner until) subs
