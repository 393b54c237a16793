-- ===== src/Services/Tenants.antt =====
-- src/application/services/tenant_service.py
pub mod Log
pub mod Effects
pub mod Steps
pub mod Lifecycle
pub mod Creation
pub mod Outcomes
pub mod Listing
pub mod Provisioning
use eu_saas.Prelude.{◌++◌, ℕ, ◌++◌, String, not, Option, none, some, List, [], ◌∷◌, map, is_some}
use eu_saas.Text.{format, replace_dashes}
use eu_saas.Domain.Values.{Uuid, Time, text, texts, Attributes}
use eu_saas.Domain.Tenant.{
  TenantStatus, pending, provisioning, active, suspended, deprovisioning, deleted, status_value,
  Tenant,
}
use eu_saas.Domain.Audit.{tenant_created, tenant_updated, tenant_deleted}
use eu_saas.Domain.Errors.{Error, tenant_not_found, invalid_state_transition, tenant_already_exists}
use eu_saas.Domain.Lifecycle.{validate_transition}
use eu_saas.Adapters.Tenants as Repo
use eu_saas.Container.{
  Container, Task, deprovision_tenant_async, World, Action, ◌>>=◌, ◌>>◌, pure, raise, gets,
  or_raise, try_except, call, call_port, modify, raise_if,
}
use eu_saas.Pagination.{PaginatedResponse, pagination_params, offset}
use eu_saas.Services.Auditing.{create_audit_entry}

-- `self._tenant_repo.save(tenant)` and `self._tenant_repo.update(tenant)`
abbrev pub save_tenant : Tenant → Container → Container
save_tenant tenant s = record s { tenants = Repo.save tenant s.tenants }

abbrev pub update_stored : Tenant → Container → Container
update_stored tenant s = record s { tenants = Repo.update tenant s.tenants }

abbrev pub enqueue : Task → Container → Container
enqueue task s = record s { queue = s.queue ++ task ∷ [] }

-- `actor_id or UUID(int=0)`, where the caller gives no actor.
abbrev pub nobody : Uuid
nobody = 0

-- `settings or {}`
abbrev or_empty : Option Attributes → Attributes
or_empty none = []
or_empty (some settings) = settings

-- An item of `updates`; `other` is a key that is not in `allowed_fields`.
pub data Update : Type 0 where
  set_name : String → Update
  set_settings set_metadata : Attributes → Update
  other : (key : String) → Update

abbrev key : Update → String
key (set_name name) = "name"
key (set_settings settings) = "settings"
key (set_metadata metadata) = "metadata"
key (other k) = k

abbrev set_field : Update → Tenant → Tenant
set_field (set_name name) t = record t { name = name }
set_field (set_settings settings) t = record t { settings = settings }
set_field (set_metadata metadata) t = record t { metadata = metadata }
set_field (other k) t = t

abbrev pub set_fields : List Update → Tenant → Tenant
set_fields [] t = t
set_fields (u ∷ updates) t = set_fields updates (set_field u t)

abbrev pub schema_name_of : String → String
schema_name_of slug = format ("tenant_" ∷ replace_dashes slug ∷ [])

abbrev new_tenant : Uuid → String → String → String → Option Attributes → Time → Time → Tenant
new_tenant id name slug owner_email settings created_at updated_at = record {
  id = id;
  name = name;
  slug = slug;
  owner_email = owner_email;
  status = pending;
  schema_name = schema_name_of slug;
  created_at = created_at;
  updated_at = updated_at;
  settings = or_empty settings;
  metadata = [];
}

unfoldable pub get_tenant : Uuid → Action Tenant
get_tenant tenant_id = do
  tenant ← gets (λ s. Repo.get_by_id s.tenants tenant_id)
  or_raise tenant (tenant_not_found tenant_id)

module _ (w : World) where
  unfoldable pub transition : Tenant → TenantStatus → Action Tenant
  transition tenant new_status = do
    raise_if (not (validate_transition tenant.status new_status))
        (invalid_state_transition tenant.status new_status)
    now ← call w.now
    let changed = record tenant { status = new_status; updated_at = now }
    modify (update_stored changed)
    pure changed

  -- The `try` body of `create_tenant`.
  unfoldable pub provision : Tenant → Action Tenant
  provision tenant = do
    started ← transition tenant provisioning
    call_port (λ n. w.schemas.create_schema n tenant.schema_name)
    call_port (λ n. w.schemas.run_migrations n tenant.schema_name)
    transition started active

  -- Its `except` body. `tenant` is the object that the store holds, so its fields are read there.
  pub roll_back : Uuid → Error → Action Tenant
  roll_back tenant_id e =
      try_except
        (do
          tenant ← get_tenant tenant_id
          let reset = record tenant { status = provisioning }
          modify (update_stored reset)
          transition reset deleted
          pure tt)
        (λ _. pure tt)
      >> raise e

  unfoldable pub create_tenant : String → String → String → Option Attributes → Action Tenant
  create_tenant name slug owner_email settings = do
    existing ← gets (λ s. Repo.get_by_slug s.tenants slug)
    raise_if (is_some existing) (tenant_already_exists slug)
    id ← call w.uuid4
    created_at ← call w.now
    updated_at ← call w.now
    let tenant = new_tenant id name slug owner_email settings created_at updated_at
    modify (save_tenant tenant)
    provisioned ← try_except (provision tenant) (roll_back id)
    create_audit_entry w id tenant_created nobody
        (("slug", text slug) ∷ ("owner_email", text owner_email) ∷ [])
    pure provisioned

  pub update_tenant : Uuid → List Update → Action Tenant
  update_tenant tenant_id updates = do
    tenant ← get_tenant tenant_id
    now ← call w.now
    let changed = record (set_fields updates tenant) { updated_at = now }
    modify (update_stored changed)
    create_audit_entry w changed.id tenant_updated nobody
        (("updated_fields", texts (map key updates)) ∷ [])
    pure changed

  unfoldable pub suspend_tenant : Uuid → Action Tenant
  suspend_tenant tenant_id = do
    tenant ← get_tenant tenant_id
    changed ← transition tenant suspended
    create_audit_entry w changed.id tenant_updated nobody
        (("action", text "suspend") ∷ ("new_status", text (status_value suspended)) ∷ [])
    pure changed

  pub activate_tenant : Uuid → Action Tenant
  activate_tenant tenant_id = do
    tenant ← get_tenant tenant_id
    changed ← transition tenant active
    create_audit_entry w changed.id tenant_updated nobody
        (("action", text "activate") ∷ ("new_status", text (status_value active)) ∷ [])
    pure changed

  pub deprovision_tenant : Uuid → Action Tenant
  deprovision_tenant tenant_id = do
    tenant ← get_tenant tenant_id
    changed ← transition tenant deprovisioning
    create_audit_entry w changed.id tenant_deleted nobody
        (("action", text "deprovision_started") ∷ [])
    modify (enqueue (deprovision_tenant_async tenant_id))
    pure changed

unfoldable pub list_tenants : ℕ → ℕ → Option TenantStatus → Action (PaginatedResponse Tenant)
list_tenants page size status_filter = do
  let params = pagination_params page size
  found ← gets (λ s. Repo.list_tenants s.tenants (offset params) params.size status_filter)
  pure (record { items = found.0; total = found.1; page = params.page; size = params.size })
