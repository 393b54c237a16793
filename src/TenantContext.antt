-- ===== src/TenantContext.antt =====
-- src/presentation/middleware/tenant_context.py. The repository of `app.state`, `uuid.UUID` and
-- `str` of a claim are parameters; a response body is its fields.
pub mod Isolation
use text.Mathlib.Text.{starts_with}
use eu_saas.Prelude.{
  ℕ, String, Bool, not, Option, none, some, List, [], ◌∷◌, any, lookup, ◌==◌, string_eq, is_some,
  if◌then◌else◌,
}
use eu_saas.Text.{format}
use eu_saas.Domain.Values.{Uuid, Attributes, Value}

-- `PUBLIC_PATH_PREFIXES`
abbrev public_path_prefixes : List String
public_path_prefixes =
    "/health" ∷ "/docs" ∷ "/redoc" ∷ "/openapi.json" ∷ "/api/v1/auth/login"
    ∷ "/api/v1/auth/register" ∷ "/api/v1/auth/refresh" ∷ []

pub record TenantContext : Type 0 where
  pub tenant_id : Uuid
  pub tenant_slug : String
  pub schema_name : String
  pub tier : String
  pub status : String

-- The dict that a repository returns; `none` is a key that is not there.
pub record TenantRecord : Type 0 where
  pub slug : Option String
  pub schema_name : Option String
  pub tier : Option String
  pub status : Option String

pub record Request : Type 0 where
  pub path : String
  pub jwt_claims : Option Attributes
  pub x_tenant_id : Option String

-- What the middleware does: it calls the next handler with the context, answers with a problem
-- document, or raises `ValueError`.
pub data Outcome : Type 0 where
  passed_on : Option TenantContext → Outcome
  problem : (status_code : ℕ) (title detail : String) (instance_path : Option String) → Outcome
  value_error : Outcome

-- The environment of the middleware.
pub record Environment : Type 0 where
  pub str : Value → String
  pub parse_uuid : String → Option Uuid
  pub str_uuid : Uuid → String
  pub hex_prefix : Uuid → String
  pub repository : Option (String → Option TenantRecord)

-- `d.get(key, default)`
abbrev get_or : Option String → String → String
get_or none default = default
get_or (some value) default = value

unfoldable pub is_public : String → Bool
is_public path = any (λ prefix. starts_with path prefix) public_path_prefixes

abbrev missing_context : Outcome
missing_context =
    problem 403 "Missing Tenant Context"
      (format (
        "A tenant identifier is required. Provide a valid JWT with a "
        ∷ "'tenant_id' claim or set the X-Tenant-ID header." ∷ []))
      none

module _ (env : Environment) where
  -- The header, if it is there, not empty, and a UUID.
  abbrev pub from_header : Option String → Option String
  from_header none = none
  from_header (some String.[]) = none
  from_header (some (String.◌∷◌ c t)) =
      if is_some (env.parse_uuid (String.◌∷◌ c t)) then some (String.◌∷◌ c t) else none

  abbrev claim : Option Attributes → Option Value
  claim none = none
  claim (some claims) = lookup "tenant_id" claims

  abbrev claim_or_header : Option Value → Option String → Option String
  claim_or_header (some value) header = some (env.str value)
  claim_or_header none header = from_header header

  -- `_extract_tenant_id`
  unfoldable pub extract_tenant_id : Request → Option String
  extract_tenant_id r = claim_or_header (claim r.jwt_claims) r.x_tenant_id

  abbrev stub : Option Uuid → Option TenantRecord
  stub none = none
  stub (some uid) = some (record {
    slug = some "default";
    schema_name = some (format ("tenant_" ∷ env.hex_prefix uid ∷ []));
    tier = some "FREE";
    status = some "ACTIVE";
  })

  abbrev pub ask : Option (String → Option TenantRecord) → String → Option TenantRecord
  ask none tenant_id = stub (env.parse_uuid tenant_id)
  ask (some repository) tenant_id = repository tenant_id

  -- `_resolve_tenant`
  unfoldable pub resolve_tenant : String → Option TenantRecord
  resolve_tenant tenant_id = ask env.repository tenant_id

  abbrev attached : TenantRecord → Option Uuid → Outcome
  attached tenant none = value_error
  attached tenant (some uid) = passed_on (
      some (record {
        tenant_id = uid;
        tenant_slug = get_or tenant.slug "";
        schema_name = get_or tenant.schema_name "";
        tier = get_or tenant.tier "FREE";
        status = get_or tenant.status "ACTIVE";
      }))

  abbrev admitted : Request → String → Option TenantRecord → Outcome
  admitted r tenant_id none =
      problem 404 "Tenant Not Found"
        (format ("Tenant with id '" ∷ tenant_id ∷ "' does not exist." ∷ [])) (some r.path)
  admitted r tenant_id (some tenant) =
      if not (get_or tenant.status "" == "ACTIVE")
      then problem 403 "Tenant Inactive"
          (format (
            "Tenant '"
            ∷ tenant_id
            ∷ "' is currently '"
            ∷ get_or tenant.status "UNKNOWN"
            ∷ "'. Only ACTIVE tenants may access the API."
            ∷ []))
          (some r.path)
      else attached tenant (env.parse_uuid tenant_id)

  abbrev resolved : Request → Option String → Outcome
  resolved r none = missing_context
  resolved r (some tenant_id) = admitted r tenant_id (resolve_tenant tenant_id)

  unfoldable pub dispatch : Request → Outcome
  dispatch r = if is_public r.path then passed_on none else resolved r (extract_tenant_id r)

-- The dependency `get_current_tenant`, given what the middleware has attached to the request: the
-- context, or an `HTTPException` of a status code and a detail.
pub data Dependency : Type 0 where
  context : TenantContext → Dependency
  http_exception : (status_code : ℕ) (detail : String) → Dependency

unfoldable pub get_current_tenant : Option TenantContext → Dependency
get_current_tenant none = http_exception 403 "Tenant context is not available for this request."
get_current_tenant (some ctx) = context ctx
