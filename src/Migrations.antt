-- ===== src/Migrations.antt =====
-- src/infrastructure/database/migration_runner.py, and migrations/env.py beside it, which
-- Alembic runs. Alembic and what a schema holds are parameters.
pub mod Naming
pub mod Batches
use eu_saas.Prelude.{
  ◌+◌, ℕ, String, Char, code, Bool, true, false, Option, none, some, List, [], ◌∷◌, ◌==◌, string_eq,
  nat_beq, if◌then◌else◌, Dict, insert, ◌&&◌,
}
use eu_saas.Text.{format, replace_dashes, remove_prefix}
use eu_saas.SchemaManager.{list_schemas}
use eu_saas.Container.{Reply, returned, raised}

-- `_tenant_schema_name`
unfoldable pub tenant_schema_name : String → String
tenant_schema_name slug = format ("tenant_" ∷ replace_dashes slug ∷ [])

pub record MigrationStatus : Type 0 where
  pub tenant_slug : String
  pub schema_name : String
  pub current_revision : Option String
  pub head_revision : Option String
  pub is_up_to_date : Bool

-- `get_tenant_schema` of migrations/env.py, for the argument `-x tenant=…`.
unfoldable pub get_tenant_schema : Option String → Option String
get_tenant_schema none = none
get_tenant_schema (some String.[]) = none
get_tenant_schema (some (String.◌∷◌ c tenant)) =
    some (format ("tenant_" ∷ String.◌∷◌ c tenant ∷ []))

-- `schema or "public"`
abbrev or_public : Option String → String
or_public none = "public"
or_public (some schema) = schema

-- The schema that `run_migrations_online` migrates, on a connection of its own. It reads neither the
-- schema nor the connection that the runner puts into the attributes of the configuration.
unfoldable pub migrated_schema : Option String → String
migrated_schema x_tenant = or_public (get_tenant_schema x_tenant)

-- A configuration that is made in a program has no arguments of a command line.
abbrev pub x_tenant : Option String
x_tenant = none

-- Alembic on a schema: its revision, the head of the scripts, and the runs of the upgrades to the
-- head and of the downgrades to a revision, by their number: what a run does may depend on others
-- that run at the same time.
pub record Alembic (S : Type 0) : Type 0 where
  pub get_current_revision : S → Option String
  pub upgrade : ℕ → S → Reply S
  pub downgrade : ℕ → String → S → Reply S
  pub head : Option String

-- The schemas of the database, by name.
abbrev pub Database : Type 0 → Type 0
Database S = String → S

-- `current_rev == head_rev`
abbrev same_revision : Option String → Option String → Bool
same_revision none none = true
same_revision (some a) (some b) = a == b
same_revision _ _ = false

module _ {S : Type 0} where
  abbrev pub put : String → S → Database S → Database S
  put schema state db = λ name. if schema == name then state else db name

  -- The transaction of `run_migrations_online`: it leaves the schema alone when it raises.
  abbrev pub commit : String → Reply S → Database S → Reply (Unit {0}) × Database S
  commit schema (returned state) db = (returned tt, put schema state db)
  commit schema (raised message) db = (raised message, db)

module _ {S : Type 0} (a : Alembic S) where
  -- `alembic_command.upgrade`, as the run of that number.
  abbrev pub upgrade : ℕ → Database S → Reply (Unit {0}) × Database S
  upgrade n db = let target = migrated_schema x_tenant in commit target (a.upgrade n (db target)) db

  -- What the runner does around it reads the revision of the tenant's schema, for the log.
  unfoldable pub run_migrations : ℕ → String → Database S → Reply (Unit {0}) × Database S
  run_migrations n tenant_slug db = upgrade n db

  unfoldable pub run_canary_migration : ℕ → String → Database S → Reply (Unit {0}) × Database S
  run_canary_migration n tenant_slug db = run_migrations n tenant_slug db

  unfoldable pub rollback_migration :
      ℕ → String → String → Database S → Reply (Unit {0}) × Database S
  rollback_migration n tenant_slug revision db =
      let target = migrated_schema x_tenant in commit target (a.downgrade n revision (db target)) db

  unfoldable pub get_migration_status : String → Database S → MigrationStatus
  get_migration_status tenant_slug db =
      let schema = tenant_schema_name tenant_slug in
      record {
        tenant_slug = tenant_slug;
        schema_name = schema;
        current_revision = a.get_current_revision (db schema);
        head_revision = a.head;
        is_up_to_date = same_revision (a.get_current_revision (db schema)) a.head;
      }

  -- What a worker reports of a schema.
  abbrev pub status_of : Reply (Unit {0}) → String
  status_of (returned _) = "ok"
  status_of (raised message) = message

  -- `_migrate_one`
  unfoldable pub migrate_one : ℕ → String → Database S → (String × String) × Database S
  migrate_one n schema_name db =
      let r = run_migrations n (remove_prefix "tenant_" schema_name) db in
      ((schema_name, status_of r.0), r.1)

  -- The workers in the order in which they end, from the run `n` on.
  unfoldable pub collect :
      ℕ → Dict String String → List String → Database S → Dict String String × Database S
  collect n results [] db = (results, db)
  collect n results (schema_name ∷ order) db =
      let r = migrate_one n schema_name db in collect (n + 1) (insert r.0.0 r.0.1 results) order r.1

  -- A run over all schemas of which the database has these names; `completed` is the order in which
  -- `as_completed` gives the workers for a list of schemas.
  unfoldable pub run_all_tenants :
      (List String → List String)
      → (List String → List String)
      → List String
      → Database S
      → Dict String String × Database S
  run_all_tenants order_by completed names db =
      collect 0 [] (completed (list_schemas order_by names)) db
