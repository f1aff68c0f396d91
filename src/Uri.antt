-- ===== src/Uri.antt =====
-- evercoreuri/uri.go. The parser of URLs, the SQL drivers and the migrations are parameters.
use evercore.Base.{String, ◌||◌, ◌==◌, string_eq, if◌then◌else◌}
use evercore.Base.Outcome.{
  M, Outcome, ok, err, panic, ◌>>=◌, ◌>>◌, pure, fail, wrapping, unsupported_driver,
}
use evercore.Engine.{StorageEngine}
use evercore.Sql.Queries.{Connection}
use evercore.Sql.Migrations.{Migrator, sqlite_migrate_up, postgres_migrate_up}
use evercore.Sql.Engine.Interface.{sqlite_engine}
use evercore.Sql.Postgres.{postgres_engine}
use evercore.Store.State.{EventStore, new_event_store}

pub record Url : Type 0 where
  pub driver : String
  pub dsn : String

-- What the packages dburl and sql do.
pub record Drivers (D Tx : Type 0) : Type 0 where
  pub parse : String → Outcome Url
  pub open_database : Url → M D (Connection D Tx)
  pub exec : String → M D (Unit {0})
  pub goose : Migrator D

-- A call whose error is dropped.
abbrev pub drop_error : Outcome (Unit {0}) → Outcome (Unit {0})
drop_error (ok a) = ok tt
drop_error (err e) = ok tt
drop_error (panic m) = panic m

abbrev pub ignoring : {D : Type 0} → M D (Unit {0}) → M D (Unit {0})
ignoring m d = let r = m d in (drop_error r.0, r.1)

module _ {D Tx : Type 0} (drivers : Drivers D Tx) where
  -- The case of SQLite.
  unfoldable pub sqlite_storage : Connection D Tx → M D (StorageEngine D Tx)
  sqlite_storage db = do
    ignoring (sqlite_migrate_up drivers.goose)
    wrapping "failed to set journal mode" (drivers.exec "PRAGMA journal_mode=WAL;")
    wrapping "failed to set synchronous mode" (drivers.exec "PRAGMA synchronous=normal;")
    wrapping "failed to set temp store" (drivers.exec "PRAGMA temp_store=memory;")
    wrapping "failed to set mmap size" (drivers.exec "PRAGMA mmap_size = 30000000000;")
    pure (sqlite_engine db)

  unfoldable pub postgres_storage : Connection D Tx → M D (StorageEngine D Tx)
  postgres_storage db = do ignoring (postgres_migrate_up drivers.goose); pure (postgres_engine db)

  -- `switch durl.Driver`
  unfoldable pub storage_of : String → Connection D Tx → M D (StorageEngine D Tx)
  unfolding sqlite_storage postgres_storage
  storage_of driver db =
      if driver == "postgres" || driver == "pgx"
      then postgres_storage db
      else if driver == "sqlite3" || driver == "sqlite"
      then sqlite_storage db
      else fail (unsupported_driver driver)

  unfoldable pub get_storage_engine : String → M D (StorageEngine D Tx)
  unfolding storage_of
  get_storage_engine uri = do
    durl ← wrapping "failed to parse uri" (λ d. (drivers.parse uri, d))
    db ← wrapping "failed to open database" (drivers.open_database durl)
    storage_of durl.driver db

  -- The store that is returned, with its engine.
  unfoldable pub connect : String → M D (StorageEngine D Tx × EventStore D)
  unfolding get_storage_engine
  connect uri = do
    engine ← wrapping "failed to get storage engine" (get_storage_engine uri)
    λ d. (ok (engine, new_event_store d), d)
