-- ===== src/Migrations/Batches.antt =====
-- A run over all tenants, whatever the order in which the workers end and whatever they do to each
-- other.
use eu_saas.Prelude.{
  ℕ, ◌+◌, ◌≡◌, ◌≢◌, refl, ap, ◌∙◌, String, true, ◌||◌, Bool-cases, inl, inr, some, List, [], ◌∷◌,
  ◌==◌, ==_ne, string_eq, if◌then◌else◌, Dict, lookup, insert, lookup-insert, contains,
}
use eu_saas.Container.{Reply, returned, raised}
use eu_saas.SchemaManager.{list_schemas}
use eu_saas.Migrations.{
  Alembic, Database, commit, migrated_schema, get_tenant_schema, x_tenant, run_migrations,
  migrate_one, collect, run_all_tenants,
}

commit-elsewhere :
    {S : Type 0} (target j : String) (r : Reply S) (db : Database S)
    → target ≢ j
    → (commit target r db).1 j ≡ db j
commit-elsewhere target j (returned state) db differs = rw (==_ne target j differs) refl
commit-elsewhere target j (raised message) db differs = refl

ok-insert :
    (k j : String) (order : List String) (results : Dict String String)
    → (if contains j order then some "ok" else lookup j (insert k "ok" results))
      ≡ (if (k == j) || contains j order then some "ok" else lookup j results)
ok-insert k j order results = rw (lookup-insert k j "ok" results) (elim (Bool-cases (k == j)) [
  | inl same ↦ elim (Bool-cases (contains j order)) [
    | inl more ↦ rw (same, more) refl
    | inr last ↦ rw (same, last) refl
  ]
  | inr other ↦ rw other refl
])

module _ {S : Type 0} (a : Alembic S) where
  migrate_one-elsewhere :
      (n : ℕ) (k j : String) (db : Database S) → "public" ≢ j → (migrate_one a n k db).1 j ≡ db j
  unfolding migrate_one run_migrations migrated_schema get_tenant_schema
  migrate_one-elsewhere n k j db differs =
      commit-elsewhere "public" j (a.upgrade n (db "public")) db differs

  collect-elsewhere :
      (n : ℕ) (results : Dict String String) (order : List String) (j : String) (db : Database S)
      → "public" ≢ j
      → (collect a n results order db).1 j ≡ db j
  unfolding collect
  collect-elsewhere n results [] j db differs = refl
  collect-elsewhere n results (k ∷ order) j db differs =
      collect-elsewhere (n + 1) _ order j (migrate_one a n k db).1 differs
      ∙ migrate_one-elsewhere n k j db differs

  -- Every run returns, whatever others do.
  abbrev pub AllReturn : Type 0
  AllReturn = (n : ℕ) (state : S) → (next : S) × (a.upgrade n state ≡ returned next)

  migrate_one-ok :
      (n : ℕ) (k : String) (db : Database S) → AllReturn → (migrate_one a n k db).0 ≡ (k, "ok")
  unfolding migrate_one run_migrations
  migrate_one-ok n k db all = let (next, e) = all n (db (migrated_schema x_tenant)) in rw e refl

  collect-ok :
      (n : ℕ) (results : Dict String String) (order : List String) (j : String) (db : Database S)
      → AllReturn
      → lookup j (collect a n results order db).0
        ≡ (if contains j order then some "ok" else lookup j results)
  unfolding collect
  collect-ok n results [] j db all = refl
  collect-ok n results (k ∷ order) j db all =
      let after = (migrate_one a n k db).1 in
      ap (λ r. lookup j (collect a (n + 1) (insert r.0 r.1 results) order after).0)
        (migrate_one-ok n k db all)
      ∙ collect-ok (n + 1) (insert k "ok" results) order j after all
      ∙ ok-insert k j order results

  module _ (order_by completed : List String → List String) (names : List String)
      (db : Database S) where
    -- If the workers that end are those that were started, and every upgrade returns: a listed schema
    -- other than "public" is reported by "ok", and is as before.
    pub run_all_tenants-unmigrated :
        (j : String)
        → ((schemas : List String) → contains j (completed schemas) ≡ contains j schemas)
        → AllReturn
        → contains j (list_schemas order_by names) ≡ true
        → "public" ≢ j
        → let r = run_all_tenants a order_by completed names db in
          (lookup j r.0 ≡ some "ok") × (r.1 j ≡ db j)
    unfolding run_all_tenants lookup
    run_all_tenants-unmigrated j ends all listed tenant =
        let schemas = list_schemas order_by names in
        (
          collect-ok 0 [] (completed schemas) j db all ∙ rw (ends schemas, listed) refl,
          collect-elsewhere 0 [] (completed schemas) j db tenant,
        )
