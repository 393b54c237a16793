-- ===== src/SchemaManager.antt =====
-- src/infrastructure/database/tenant_schema_manager.py: the names of schemas, and creating, dropping
-- and listing them. The database is the list of the names of its schemas. CREATE SCHEMA and DROP
-- SCHEMA act on the name that PostgreSQL keeps of an identifier, of at most 63 bytes: `stored`, a
-- parameter. The query of `_check_exists` compares the whole name.
pub mod Names
pub mod Schemas
use eu_saas.Prelude.{
  ℕ, String, Char, code, Bool, true, false, not, Option, none, some, List, [], ◌∷◌, leb, ◌&&◌, ◌||◌,
  nat_beq, filter, contains, ◌==◌, string_eq, if◌then◌else◌,
}
use eu_saas.Text.{format, replace_dashes}

-- `[a-z0-9]`
abbrev pub is_alphanumeric : ℕ → Bool
is_alphanumeric c = (leb b'a' c && leb c b'z') || (leb b'0' c && leb c b'9')

-- `[a-z0-9_-]`
abbrev pub is_slug_code : ℕ → Bool
is_slug_code c = is_alphanumeric c || nat_beq c b'_' || nat_beq c b'-'

-- `[a-z0-9_-]*$`: the `$` of Python's `re` also matches before a line feed that ends the text.
unfoldable pub matches_rest : String → Bool
matches_rest String.[] = true
matches_rest (String.◌∷◌ c String.[]) = is_slug_code (code c) || nat_beq (code c) 10
matches_rest (String.◌∷◌ c (String.◌∷◌ d t)) =
    is_slug_code (code c) && matches_rest (String.◌∷◌ d t)

-- `re.match(r"^[a-z0-9][a-z0-9_-]*$", slug)`
unfoldable pub matches_slug : String → Bool
matches_slug String.[] = false
matches_slug (String.◌∷◌ c t) = is_alphanumeric (code c) && matches_rest t

-- `_sanitise_slug`; `none` is a `ValueError`.
unfoldable pub sanitise_slug : String → Option String
sanitise_slug slug = if matches_slug slug then some (replace_dashes slug) else none

abbrev prefixed : Option String → Option String
prefixed none = none
prefixed (some component) = some (format ("tenant_" ∷ component ∷ []))

-- `_schema_name`
unfoldable pub schema_name : String → Option String
schema_name slug = prefixed (sanitise_slug slug)

-- A `database_error` is what PostgreSQL raises for a statement.
pub data Outcome : Type 0 where
  returned : (schema : String) → Outcome
  done : Outcome
  value_error runtime_error : (slug : String) → Outcome
  database_error : (schema : String) → Outcome

-- `CREATE SCHEMA {schema}`
abbrev statement_create : String → String → List String → Outcome × List String
statement_create kept schema schemas =
    if contains kept schemas
    then (database_error schema, schemas)
    else (returned schema, kept ∷ schemas)

abbrev created : (String → String) → String → List String → Option String → Outcome × List String
created stored slug schemas none = (value_error slug, schemas)
created stored slug schemas (some schema) =
    if contains schema schemas
    then (runtime_error slug, schemas)
    else statement_create (stored schema) schema schemas

unfoldable pub create_schema : (String → String) → String → List String → Outcome × List String
create_schema stored tenant_slug schemas =
    created stored tenant_slug schemas (schema_name tenant_slug)

-- `DROP SCHEMA {schema} CASCADE`
abbrev statement_drop : String → String → List String → Outcome × List String
statement_drop kept schema schemas =
    if contains kept schemas
    then (done, filter (λ s. not (s == kept)) schemas)
    else (database_error schema, schemas)

abbrev dropped : (String → String) → String → List String → Option String → Outcome × List String
dropped stored slug schemas none = (value_error slug, schemas)
dropped stored slug schemas (some schema) =
    if not (contains schema schemas)
    then (runtime_error slug, schemas)
    else statement_drop (stored schema) schema schemas

unfoldable pub drop_schema : (String → String) → String → List String → Outcome × List String
drop_schema stored tenant_slug schemas =
    dropped stored tenant_slug schemas (schema_name tenant_slug)

abbrev answered : List String → Option String → Option Bool
answered schemas none = none
answered schemas (some schema) = some (contains schema schemas)

-- `none` is a `ValueError`.
unfoldable pub schema_exists : String → List String → Option Bool
schema_exists tenant_slug schemas = answered schemas (schema_name tenant_slug)

-- `text LIKE prefix || '_%'`, where the underscore stands for any one character.
abbrev is_longer : String → String → Bool
is_longer String.[] String.[] = false
is_longer String.[] (String.◌∷◌ c t) = true
is_longer (String.◌∷◌ p prefix) String.[] = false
is_longer (String.◌∷◌ p prefix) (String.◌∷◌ c t) =
    let rest = is_longer prefix t in nat_beq (code p) (code c) && rest

-- `schema_name LIKE 'tenant_%'`
unfoldable pub is_like_tenant : String → Bool
is_like_tenant schema = is_longer "tenant" schema

-- The order of the database is a parameter.
unfoldable pub list_schemas : (List String → List String) → List String → List String
list_schemas order_by schemas = order_by (filter is_like_tenant schemas)

-- The size in bytes, where the database gives that of a schema.
pub data Size : Type 0 where
  bytes : ℕ → Size
  value_error runtime_error : (slug : String) → Size

abbrev measured : (String → ℕ) → String → List String → Option String → Size
measured size_of slug schemas none = Size.value_error slug
measured size_of slug schemas (some schema) =
    if contains schema schemas then bytes (size_of schema) else Size.runtime_error slug

unfoldable pub get_schema_size : (String → ℕ) → String → List String → Size
get_schema_size size_of tenant_slug schemas =
    measured size_of tenant_slug schemas (schema_name tenant_slug)
