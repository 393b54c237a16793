-- ===== src/Presentation.antt =====
-- src/presentation/main.py: how the routes answer. A route is an action that ends with an answer, or
-- with the exception of a service, for which the handlers of the application answer.
pub mod Schemas
pub mod Tenants
pub mod Auth
pub mod Billing
pub mod Gdpr
pub mod Failures
pub mod Answers
pub mod Exports
pub mod Slugs
use eu_saas.Prelude.{◌&&◌, leb, Bool, [], ◌∷◌, ℕ, String, Option, none, some}
use eu_saas.Text.{format}
use eu_saas.Domain.Values.{Uuid}
use eu_saas.Domain.Tenant.{status_value}
use eu_saas.Domain.Errors.{
  Error, tenant_not_found, invalid_state_transition, tenant_already_exists, cross_tenant_access,
  schema_creation, tenant_quota_exceeded,
}
use eu_saas.Container.{Container, World, Result, ok, err, Action}

-- The attributes of a `DomainError`.
pub record DomainError : Type 0 where
  pub detail : String
  pub title : String
  pub status_code : ℕ
  pub error_type : String

abbrev error_with : ℕ → String → String → String → DomainError
error_with status_code title slug detail = record {
  detail = detail;
  title = title;
  status_code = status_code;
  error_type = format ("https://api.eu-platform.example/problems/" ∷ slug ∷ []);
}

-- `none` for an exception that is not a `DomainError`.
unfoldable pub domain_error : (Uuid → String) → Error → Option DomainError
domain_error str (tenant_not_found tenant_id) = some (
    error_with 404 "Tenant Not Found" "tenant-not-found"
      (format ("Tenant not found: " ∷ str tenant_id ∷ [])))
domain_error str (invalid_state_transition current_state new_state) = some (
    error_with 409 "Invalid State Transition" "invalid-transition" (
      format (
        "Invalid state transition from "
        ∷ status_value current_state
        ∷ " to "
        ∷ status_value new_state
        ∷ [])))
domain_error str (tenant_already_exists identifier) = some (
    error_with 409 "Tenant Conflict" "tenant-conflict"
      (format ("Tenant already exists: " ∷ identifier ∷ [])))
domain_error str (cross_tenant_access source_tenant target_tenant) = some (
    error_with 403 "Cross-Tenant Access Denied" "cross-tenant-access" (
      format
        ("Cross-tenant access denied: " ∷ str source_tenant ∷ " -> " ∷ str target_tenant ∷ [])))
domain_error str (schema_creation schema_name reason) = some (
    error_with 500 "Schema Creation Failed" "schema-creation"
      (format ("Failed to create schema '" ∷ schema_name ∷ "': " ∷ reason ∷ [])))
domain_error str (tenant_quota_exceeded tenant_id resource limit) = some (
    error_with 429 "Quota Exceeded" "quota-exceeded" (
      format (
        "Tenant "
        ∷ str tenant_id
        ∷ " exceeded quota for "
        ∷ resource
        ∷ " (limit: "
        ∷ limit
        ∷ ")"
        ∷ [])))
domain_error str other = none

-- The body of `_problem_json`, without the list of validation errors.
pub record Problem : Type 0 where
  pub error_type : String
  pub title : String
  pub status : ℕ
  pub detail : String
  pub instance_path : String

abbrev pub internal_server_error : String → Problem
internal_server_error path = record {
  error_type = "about:blank";
  title = "Internal Server Error";
  status = 500;
  detail = "An unexpected error occurred. Please try again later.";
  instance_path = path;
}

-- `_validation_exception_handler`, without the list of errors.
abbrev pub validation_error : String → Problem
validation_error path = record {
  error_type = "https://api.eu-platform.example/problems/validation-error";
  title = "Validation Error";
  status = 422;
  detail = "The request body or parameters failed validation.";
  instance_path = path;
}

-- `page: int = Query(ge=1)` and `page_size: int = Query(ge=1, le=100)`
abbrev pub is_page : ℕ → ℕ → Bool
is_page page page_size = leb 1 page && leb 1 page_size && leb page_size 100

abbrev problem_or : String → Option DomainError → Problem
problem_or path none = internal_server_error path
problem_or path (some e) = record {
  error_type = e.error_type;
  title = e.title;
  status = e.status_code;
  detail = e.detail;
  instance_path = path;
}

-- `_domain_exception_handler` and `_generic_exception_handler`
abbrev pub handle_exception : (Uuid → String) → String → Error → Problem
handle_exception str path e = problem_or path (domain_error str e)

-- How a route ends: it returns a body, raises an `HTTPException`, or raises a `ValidationError` or a
-- `ValueError` since its response model refuses a value.
pub data Outcome (R : Type 0) : Type 0 where
  answered : (status_code : ℕ) → R → Outcome R
  refused : (status_code : ℕ) (detail : String) → Outcome R
  unserialisable : Outcome R
  -- the checks of FastAPI on the request fail
  invalid : Outcome R

pub data Response (R : Type 0) : Type 0 where
  success : (status_code : ℕ) → R → Response R
  http_exception : (status_code : ℕ) (detail : String) → Response R
  problem : Problem → Response R

module _ {R : Type 0} where
  abbrev pub code_of : Response R → ℕ
  code_of (success status_code body) = status_code
  code_of (http_exception status_code detail) = status_code
  code_of (problem p) = p.status

  -- `HTTP_200_OK`, or another code of success, with the model if it takes all values.
  abbrev pub serialised : ℕ → Option R → Outcome R
  serialised status_code none = Outcome.unserialisable
  serialised status_code (some body) = Outcome.answered status_code body

  abbrev pub responded : World → String → Result (Outcome R) → Response R
  responded w path (ok (Outcome.answered status_code body)) = Response.success status_code body
  responded w path (ok (Outcome.refused status_code detail)) =
      Response.http_exception status_code detail
  responded w path (ok Outcome.unserialisable) = Response.problem (internal_server_error path)
  responded w path (ok Outcome.invalid) = Response.problem (validation_error path)
  responded w path (err e) = Response.problem (handle_exception w.digest.str_uuid path e)

  -- What the client gets for a call of the route at a path, and the container that is left.
  unfoldable pub respond : World → String → Action (Outcome R) → Container → Response R × Container
  respond w path route s = let r = route s in (responded w path r.0, r.1)
