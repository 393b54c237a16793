-- ===== src/Domain/Errors.antt =====
-- The exceptions that the services raise: src/domain/exceptions/tenant_exceptions.py and those of
-- the application services. Messages that no code reads are reduced to what they are made from.
use eu_saas.Prelude.{ℕ, String, Option, none, some}
use eu_saas.Domain.Values.{Uuid}
use eu_saas.Domain.Tenant.{TenantStatus}

pub data Error : Type 0 where
  tenant_not_found : (tenant_id : Uuid) → Error
  invalid_state_transition : (current_state new_state : TenantStatus) → Error
  tenant_already_exists : (identifier : String) → Error
  cross_tenant_access : (source_tenant target_tenant : Uuid) → Error
  schema_creation : (schema_name reason : String) → Error
  tenant_quota_exceeded : (tenant_id : Uuid) (resource limit : String) → Error
  -- auth_service.py
  authentication : (detail : String) → Error
  invalid_token : (detail : String) → Error
  user_already_exists : (email : String) → Error
  -- `ValueError`, `RuntimeError`, and whatever else a port raises
  value_error : (message : String) → Error
  external : (message : String) → Error

-- `DomainError.status_code`, by which the presentation layer answers; the other exceptions have
-- none.
unfoldable pub status_code : Error → Option ℕ
status_code (tenant_not_found tenant_id) = some 404
status_code (invalid_state_transition current_state new_state) = some 409
status_code (tenant_already_exists identifier) = some 409
status_code (cross_tenant_access source_tenant target_tenant) = some 403
status_code (schema_creation schema_name reason) = some 500
status_code (tenant_quota_exceeded tenant_id resource limit) = some 429
status_code other = none
