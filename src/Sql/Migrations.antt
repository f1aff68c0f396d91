-- ===== src/Sql/Migrations.antt =====
-- evercoresqlite/migrations.go and evercorepostgres/migrations.go. goose keeps its settings in
-- variables of its package; what it does under them is a parameter.
use evercore.Base.{String}
use evercore.Base.Outcome.{M, wrapping}

-- The settings of goose. The files that each package embeds are named by the package.
pub record Goose : Type 0 where
  pub dialect : String
  pub base_fs : String
  pub table_name : String

abbrev pub migrations_dir : String
migrations_dir = "sql/migrations"

abbrev sqlite_settings : Goose
sqlite_settings = record {
  dialect = "sqlite3";
  base_fs = "evercoresqlite";
  table_name = "evercore_migrations";
}

abbrev postgres_settings : Goose
postgres_settings = record {
  dialect = "postgres";
  base_fs = "evercorepostgres";
  table_name = "evercore_migrations";
}

-- `goose.Up` and `goose.Down` under some settings, on the database that is open.
pub record Migrator (D : Type 0) : Type 0 where
  pub up : Goose → String → M D (Unit {0})
  pub down : Goose → String → M D (Unit {0})

module _ {D : Type 0} (goose : Migrator D) where
  unfoldable pub sqlite_migrate_up : M D (Unit {0})
  sqlite_migrate_up = goose.up sqlite_settings migrations_dir

  unfoldable pub sqlite_migrate_down : M D (Unit {0})
  sqlite_migrate_down = goose.down sqlite_settings migrations_dir

  unfoldable pub postgres_migrate_up : M D (Unit {0})
  postgres_migrate_up = wrapping "failed to migrate up" (goose.up postgres_settings migrations_dir)

  unfoldable pub postgres_migrate_down : M D (Unit {0})
  postgres_migrate_down =
      wrapping "failed to migrate down" (goose.down postgres_settings migrations_dir)
