-- ===== src/Tasks.antt =====
-- src/application/tasks: the Celery tasks. A task that fails ends by `raise self.retry(exc=exc)`:
-- here it raises the exception that Celery is given to retry with.
pub mod Effects
pub mod Log
pub mod Lifecycle
pub mod Billing
use eu_saas.Prelude.{ℕ, ◌+◌, ◌++◌, String, Option, none, some, List, [], ◌∷◌, ◌==◌, if◌then◌else◌}
use eu_saas.Text.{format}
use eu_saas.Domain.Values.{Uuid, Value, text}
use eu_saas.Domain.Tenant.{
  TenantStatus, pending, provisioning, active, deprovisioning, deleted, status_eq, Tenant,
}
use eu_saas.Domain.Audit.{tenant_deleted}
use eu_saas.Domain.Errors.{Error}
use eu_saas.Adapters.Tenants as TenantRepo
use eu_saas.Adapters.Jobs as JobRepo
use eu_saas.Adapters.Jobs.{ExportJobStatus, in_progress, completed}
use eu_saas.Container.{
  Container, World, Action, ◌>>=◌, ◌>>◌, pure, raise, gets, try_except, call_port, modify, when,
}
use eu_saas.Services.Auditing.{create_audit_entry}
use eu_saas.Services.Tenants.{get_tenant, transition, nobody, schema_name_of}
use eu_saas.Services.Gdpr.{
  CleanupResult, ErasureResult, purge, run_retention_cleanup, execute_erasure,
}

abbrev pub update_job :
    String → ExportJobStatus → Option String → Option String → Container → Container
update_job job_id status download_url error s = record s {
  jobs = JobRepo.update_status job_id status download_url error s.jobs;
}

pub record Sweep : Type 0 where
  pub tenants_processed : ℕ
  pub total_soft_deleted : ℕ
  pub total_hard_deleted : ℕ

abbrev pub nothing_swept : Sweep
nothing_swept = record { tenants_processed = 0; total_soft_deleted = 0; total_hard_deleted = 0 }

abbrev pub counted : Sweep → CleanupResult → Sweep
counted sweep result = record {
  tenants_processed = sweep.tenants_processed + 1;
  total_soft_deleted = sweep.total_soft_deleted + result.records_soft_deleted;
  total_hard_deleted = sweep.total_hard_deleted + result.records_hard_deleted;
}

-- `container.tenant_repo.list_tenants(0, 10000, TenantStatus.ACTIVE)`
unfoldable pub active_tenants : Action (List Tenant)
active_tenants = gets (λ s. (TenantRepo.list_tenants s.tenants 0 10000 (some active)).0)

module _ (w : World) where
  -- `if tenant.status == from: service._transition(tenant, to)`
  transition_from : TenantStatus → TenantStatus → Tenant → Action (Unit {0})
  transition_from from to tenant = when (tenant.status == from) (transition w tenant to >> pure tt)

  pub provision_tenant_async : Uuid → Action (Unit {0})
  provision_tenant_async tenant_id = do
    tenant ← get_tenant tenant_id
    transition_from pending provisioning tenant
    call_port (λ n. w.schemas.create_schema n tenant.schema_name)
    call_port (λ n. w.schemas.run_migrations n tenant.schema_name)
    reloaded ← get_tenant tenant_id
    transition_from provisioning active reloaded

  pub deprovision_tenant_async : Uuid → Action (Unit {0})
  deprovision_tenant_async tenant_id = do
    tenant ← get_tenant tenant_id
    call_port (λ n. w.schemas.drop_schema n tenant.schema_name)
    modify (purge (w.digest.str_uuid tenant_id))
    transition_from deprovisioning deleted tenant
    create_audit_entry w tenant_id tenant_deleted nobody (("action", text "deprovisioned") ∷ [])
    pure tt

  pub run_tenant_migrations : String → Action String
  run_tenant_migrations tenant_slug = do
    let schema_name = schema_name_of tenant_slug
    call_port (λ n. w.schemas.run_migrations n schema_name)
    pure schema_name

  -- The body of the loop: an exception is logged, and the sweep goes on.
  clean_one : Sweep → Tenant → Action Sweep
  clean_one sweep tenant =
      try_except (do result ← run_retention_cleanup w tenant.id; pure (counted sweep result))
        (λ _. pure sweep)

  clean_all : Sweep → List Tenant → Action Sweep
  clean_all sweep [] = pure sweep
  clean_all sweep (tenant ∷ tenants) = clean_one sweep tenant >>= λ next. clean_all next tenants

  pub run_retention_cleanup_all : Action Sweep
  run_retention_cleanup_all = active_tenants >>= clean_all nothing_swept

  pub execute_erasure_task : Uuid → Action ℕ
  execute_erasure_task tenant_id = do
    result ← execute_erasure w tenant_id
    pure result.records_deleted

-- The two updates cannot raise, so the `except` branch is not reached.
pub export_tenant_data_task : Uuid → String → Action (Unit {0})
export_tenant_data_task tenant_id job_id = do
  modify (update_job job_id in_progress none none)
  modify (update_job job_id completed (some (format ("/exports/" ∷ job_id ∷ ".tar.gz" ∷ []))) none)
