-- ===== src/Tests/Postgres.antt =====
-- Both SQL engines over one database.
use evercore.Base.{◌≡◌, none}
use evercore.Sql.Tables.Database.{at_rest, queries}
use evercore.Sql.Engine.Subscriptions as SqliteSubscriptions
use evercore.Sql.Postgres.{get_events_for_subscription}
use evercore.Sql.Postgres.Agreement.{get_events_for_subscription-sqlite}
use evercore.Tests.{placed}
use evercore.Tests.Databases.{shelves}

get_events_for_subscription-sqlite_example :
    get_events_for_subscription (queries none) placed 2 (at_rest shelves)
    ≡ SqliteSubscriptions.get_events_for_subscription (queries none) placed 2 (at_rest shelves)
get_events_for_subscription-sqlite_example =
    get_events_for_subscription-sqlite (queries none) placed 2 (at_rest shelves)
