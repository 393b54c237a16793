-- ===== src/SchemaManager/Schemas.antt =====
-- The schemas that come and go.
use eu_saas.Prelude.{
  ◌≡◌, refl, String, true, false, not, some, List, [], ◌∷◌, contains, filter, ◌==◌, ==_refl,
  string_eq, arith,
}
use eu_saas.Text.{format, replace_dashes}
use eu_saas.SchemaManager.{
  matches_slug, sanitise_slug, schema_name, create_schema, drop_schema, schema_exists, returned,
  done, runtime_error, database_error,
}

filter_absent :
    (schema : String) (schemas : List String)
    → contains schema schemas ≡ false
    → filter (λ s. not (s == schema)) schemas ≡ schemas
filter_absent schema [] h = refl
filter_absent schema (s ∷ schemas) h = ground (arith, h, filter_absent schema schemas)

-- The answer of `schema_exists`, for a slug with a schema name.
absent :
    (slug schema : String) (schemas : List String)
    → schema_name slug ≡ some schema
    → schema_exists slug schemas ≡ some false
    → contains schema schemas ≡ false
unfolding schema_exists
absent slug schema schemas named missing =
    let answer : schema_exists slug schemas ≡ some (contains schema schemas) = rw named refl in
    ground (arith, answer, missing)

-- Once its schema is there, no slug of that schema name is accepted.
created_again :
    (stored : String → String) (slug other schema : String) (schemas : List String)
    → schema_name slug ≡ some schema
    → schema_name other ≡ some schema
    → stored schema ≡ schema
    → contains schema schemas ≡ false
    → create_schema stored other (create_schema stored slug schemas).1
      ≡ (runtime_error other, (create_schema stored slug schemas).1)
unfolding create_schema
created_again stored slug other schema schemas named named' kept free =
    rw (named, named', kept, free, ==_refl schema) refl

-- A schema that is missing, and whose name the database keeps whole, is created, and is there then;
-- creating it again is refused; dropping it restores the database.
pub create_schema-drop_schema :
    (stored : String → String) (slug schema : String) (schemas : List String)
    → schema_name slug ≡ some schema
    → stored schema ≡ schema
    → schema_exists slug schemas ≡ some false
    → let db = (create_schema stored slug schemas).1 in
      ((create_schema stored slug schemas).0 ≡ returned schema)
      × (schema_exists slug db ≡ some true)
      × (create_schema stored slug db ≡ (runtime_error slug, db))
      × (drop_schema stored slug db ≡ (done, schemas))
unfolding create_schema drop_schema schema_exists
create_schema-drop_schema stored slug schema schemas named kept missing =
    let free = absent slug schema schemas named missing in
    (
      rw (named, kept, free) refl,
      rw (named, kept, free, ==_refl schema) refl,
      created_again stored slug slug schema schemas named named kept free,
      rw (named, kept, free, ==_refl schema) (rw (filter_absent schema schemas free) refl),
    )

-- A name that is truncated to the name of a schema that is there is missing for `schema_exists`,
-- and the statement that creates it fails.
pub create_schema-truncated :
    (stored : String → String) (slug schema : String) (schemas : List String)
    → schema_name slug ≡ some schema
    → schema_exists slug schemas ≡ some false
    → contains (stored schema) schemas ≡ true
    → create_schema stored slug schemas ≡ (database_error schema, schemas)
unfolding create_schema
create_schema-truncated stored slug schema schemas named missing taken =
    rw (named, absent slug schema schemas named missing, taken) refl

-- Two slugs that differ only in dashes and underscores share a schema: once it is created for one
-- of them, the other is refused.
pub create_schema-shared :
    (stored : String → String) (slug other : String) (schemas : List String)
    → matches_slug slug ≡ true
    → matches_slug other ≡ true
    → replace_dashes slug ≡ replace_dashes other
    → ((schema : String) → schema_name slug ≡ some schema → stored schema ≡ schema)
    → schema_exists slug schemas ≡ some false
    → create_schema stored other (create_schema stored slug schemas).1
      ≡ (runtime_error other, (create_schema stored slug schemas).1)
unfolding schema_name sanitise_slug
create_schema-shared stored slug other schemas valid valid' same kept missing =
    let named : schema_name slug ≡ some (format ("tenant_" ∷ replace_dashes slug ∷ [])) =
      rw valid refl in
    let named' : schema_name other ≡ some (format ("tenant_" ∷ replace_dashes slug ∷ [])) =
      rw (valid', ← same) refl in
    created_again stored slug other _ schemas named named' (kept _ named)
      (absent slug _ schemas named missing)
