-- ===== src/Sql/Delivery/Runs.antt =====
-- What a durable runner delivers over a SQL engine while nobody else acts.
use evercore.Base.{ℕ, suc, ◌*◌, String, List, ◌++◌, ◌≡◌, take, drop}
use evercore.Base.Outcome.{ok}
use evercore.Types.{SerializedEvent, Subscription}
use evercore.Store.State.{EventStore}
use evercore.Subscriptions.Setup.{Environment, Options}
use evercore.Subscriptions.Durable.{rounds}
use evercore.Subscriptions.Durable.Reader.{IsQuiet, record_events}
use evercore.Subscriptions.Durable.Reader.Rounds.{rounds_lem}
use evercore.Sql.Engine.Interface.{sqlite_engine}
use evercore.Sql.Tables.Database.{Database, connection}
use evercore.Sql.Delivery.{pending, Owns}
use evercore.Sql.Delivery.Reader.{sql-Reader}

-- A durable runner that holds its subscription, with a positive batch size, over the SQL engine
-- and a database at rest whose events keep their constraints, which nobody cancels and beside
-- which nobody writes, is still running after n rounds; a handler that keeps what it is given
-- then has the first n batches of what was pending, in the order of the events' ids and each
-- event once, and exactly the rest is still pending.
pub rounds-deliver_sql :
    (env : Environment Database) (name : String) (opts : Options) (k n i : ℕ)
    (s : EventStore Database) (sub : Subscription) (seen : List SerializedEvent)
    → IsQuiet env
    → opts.batch_size ≡ suc k
    → Owns name opts.owner s.storage_engine sub
    → let left = pending s.storage_engine sub in
      let reached = n * suc k in
      (s' : EventStore Database) × (sub' : Subscription) × (rounds
          (sqlite_engine connection)
          env
          name
          opts
          record_events
          n
          i
          (s, seen)
        ≡ (ok tt, (s', seen ++ take reached left)))
      × Owns name opts.owner s'.storage_engine sub'
      × (pending s'.storage_engine sub' ≡ drop reached left)
rounds-deliver_sql env name opts k n i s sub seen quiet size o =
    rounds_lem (sqlite_engine connection) env name opts quiet (Owns name opts.owner) pending
      (λ b. b) (sql-Reader name opts.owner) k size n i s sub seen o
