-- ===== src/Tests/Infrastructure.antt =====
-- Migrations, tokens and prices at concrete values.
use eu_saas.Metrics.Series.{generate_series-ends, count, minutely}
use eu_saas.Exporter.{ExportConfig, TenantDatabase, Writers}
use eu_saas.Metrics.{generate_series, Draws}
use eu_saas.Prelude.{
  code, ◌≢◌, ap, ℕ, ◌+◌, ◌-◌, ◌≡◌, refl, String, true, none, some, List, [], ◌∷◌, ◌==◌, nat_eq,
  string_eq, if◌then◌else◌, lookup, arith,
}
use eu_saas.SchemaManager.{list_schemas, is_like_tenant}
use eu_saas.Domain.Values.{Uuid}
use eu_saas.Container.{returned}
use eu_saas.Migrations.{Alembic, Database, run_all_tenants}
use eu_saas.Migrations.Batches.{run_all_tenants-unmigrated}
use eu_saas.Repository.Sql.{is_valid}
use eu_saas.Repository.Tenants as Repository
use eu_saas.Repository.Tenants.{NewTenant, TenantTier, TenantField, tenant_row}
use eu_saas.Repository.Views.{answer_of, view}
use eu_saas.Repository.Histories.{Write, run, replay, run_refines}

-- Revisions by number.
abbrev alembic : Alembic ℕ
alembic = record {
  get_current_revision = λ state. none;
  upgrade = λ n state. returned (state + 1);
  downgrade = λ n revision state. returned (state - 1);
  head = none;
}

abbrev database : Database ℕ
database = λ name. if name == "tenant_acme" then 9 else 3

abbrev schemas : List String
schemas = "public" ∷ "tenant_acme" ∷ "tenant_bolt_eu" ∷ []

abbrev first : String → ℕ
first String.[] = 0
first (String.◌∷◌ c t) = code c

acme-ne-public : ◌≢◌ {A = String} "public" "tenant_acme"
acme-ne-public e =
    let same : first "public" ≡ first "tenant_acme" = ap first e in omega (arith, same)

run_all_tenants-unmigrated_example :
    let r = run_all_tenants alembic (λ names. names) (λ started. started) schemas database in
    (lookup "tenant_acme" r.0 ≡ some "ok") × (r.1 "tenant_acme" ≡ 9)
unfolding list_schemas is_like_tenant
run_all_tenants-unmigrated_example =
    run_all_tenants-unmigrated alembic (λ names. names) (λ started. started) schemas database
      "tenant_acme" (λ started. refl) (λ n state. (state + 1, refl)) refl acme-ne-public

-- A tenant, another one with the same slug, a change of name and of an id, and a deletion.
abbrev registration : String → NewTenant
registration slug = record {
  name = "Acme";
  slug = slug;
  tier = TenantTier.free;
  domain = none;
  data_residency_region = "eu-west-1";
  max_users = 50;
  metadata_json = none;
}

abbrev writes : List Write
writes =
    Write.create 1 10 (registration "acme")
    ∷ Write.create 2 11 (registration "acme")
    ∷ Write.create 3 12 (registration "bolt")
    ∷ Write.update 1 (TenantField.name "Acme SE" ∷ TenantField.unlisted "id" ∷ []) 13
    ∷ Write.delete 3
    ∷ []

run_refines_example :
    (is_valid (run writes []).1 ≡ true)
    × ((id : Uuid)
        → Repository.get_by_id (run writes []).1 id
          ≡ answer_of (replay writes (run writes []).0 (view []) id))
run_refines_example = run_refines writes [] refl

-- Whole numbers in place of floats.
abbrev draws : Draws ℕ
draws = record {
  jittered = λ n base jitter. base + n;
  not_negative = λ value. value;
  randint = λ n least most. least;
}

generate_series-ends_example :
    generate_series draws 5 1 0 0 120000000 ≡ some (minutely draws 5 1 (count 0 120000000) 0 0)
generate_series-ends_example = generate_series-ends draws 5 1 0 0 120000000

abbrev writers : Writers
writers = record {
  dumps_rows = λ rows. "rows";
  dumps = λ attributes. "manifest";
  write_csv = λ names rows. returned "rows";
  lower = λ t. t;
  join = λ directory name. name;
}

abbrev tables_of_acme : TenantDatabase
tables_of_acme = record {
  list_tables = λ schema. returned ("users" ∷ "costs" ∷ []);
  fetch_all_rows = λ schema table. returned ((("table", table) ∷ []) ∷ []);
}

abbrev config : ExportConfig
config = record { export_directory = "/tmp"; default_format = "json" }
