-- ===== src/Services/Gdpr.antt =====
-- src/application/services/gdpr_service.py. A retention period is a natural number of days, and a
-- date before the epoch is cut off at the epoch.
pub mod Effects
pub mod Log
pub mod Lifecycle
pub mod Erasure
use eu_saas.Prelude.{
  ℕ, ◌+◌, ◌-◌, String, Bool, true, false, not, Option, none, some, List, [], ◌∷◌, ltb, ◌||◌, ◌==◌,
  if◌then◌else◌,
}
use eu_saas.Domain.Values.{Uuid, Time, text, int}
use eu_saas.Domain.Tenant.{
  TenantStatus, active, suspended, deprovisioning, deleted, status_eq, Tenant,
}
use eu_saas.Domain.Audit.{data_exported, data_erased, tenant_updated, retention_executed}
use eu_saas.Domain.Errors.{value_error}
use eu_saas.Domain.Lifecycle.{validate_transition}
use eu_saas.Adapters.Jobs as JobRepo
use eu_saas.Adapters.Jobs.{ExportJob, ExportJobStatus, queued}
use eu_saas.Adapters.Policies as PolicyRepo
use eu_saas.Adapters.Policies.{RetentionPolicy}
use eu_saas.Adapters.Cache as CacheManager
use eu_saas.Container.{
  Container, export_tenant_data_task, World, Reply, Action, ◌>>=◌, ◌>>◌, pure, gets, or_raise, call,
  call_port, modify, raise_if, when,
}
use eu_saas.Services.Auditing.{create_audit_entry}
use eu_saas.Services.Tenants.{get_tenant, update_stored, enqueue, nobody}

pub record ErasureResult : Type 0 where
  pub tenant_id : Uuid
  pub schemas_dropped : List String
  pub records_deleted : ℕ
  pub caches_purged : Bool
  pub audit_entry_id : Uuid

pub record CleanupResult : Type 0 where
  pub tenant_id : Uuid
  pub records_soft_deleted : ℕ
  pub records_hard_deleted : ℕ

-- `RetentionPolicy(tenant_id=tenant_id)`, with the defaults of its fields.
abbrev pub default_policy : Uuid → Time → RetentionPolicy
default_policy tenant_id now = record {
  tenant_id = tenant_id;
  retention_days = 365;
  grace_period_days = 30;
  auto_cleanup_enabled = true;
  updated_at = now;
}

abbrev save_job : String → Uuid → Time → Container → Container
save_job job_id tenant_id now s = record s {
  jobs = JobRepo.save job_id tenant_id queued now s.jobs;
}

abbrev pub purge : String → Container → Container
purge prefix s = record s { cache = CacheManager.purge_tenant prefix s.cache }

abbrev save_policy : RetentionPolicy → Container → Container
save_policy policy s = record s { policies = PolicyRepo.save_policy policy s.policies }

module _ (w : World) where
  unfoldable pub export_tenant_data : Uuid → Action String
  export_tenant_data tenant_id = do
    get_tenant tenant_id
    job ← call w.uuid4
    let job_id = w.hex job
    created_at ← call w.now
    modify (save_job job_id tenant_id created_at)
    modify (enqueue (export_tenant_data_task tenant_id job_id))
    create_audit_entry w tenant_id data_exported nobody
        (("job_id", text job_id) ∷ ("status", text "QUEUED") ∷ [])
    pure job_id

  -- `tenant.status = …; tenant.updated_at = …; tenant = self._tenant_repo.update(tenant)`
  move_to : TenantStatus → Tenant → Action Tenant
  move_to status tenant = do
    now ← call w.now
    let changed = record tenant { status = status; updated_at = now }
    modify (update_stored changed)
    pure changed

  -- Step 1: an active tenant is suspended.
  freeze : Tenant → Action Tenant
  freeze tenant =
      if tenant.status == active
      then raise_if (not (validate_transition tenant.status suspended))
          (value_error "Cannot suspend tenant")
        >> move_to suspended tenant
      else pure tenant

  -- `if validate_transition(tenant.status, status): …`, in step 7.
  advance : TenantStatus → Tenant → Action Tenant
  advance status tenant =
      if validate_transition tenant.status status then move_to status tenant else pure tenant

  pub execute_erasure : Uuid → Action ErasureResult
  execute_erasure tenant_id = do
    tenant ← get_tenant tenant_id
    frozen ← freeze tenant
    job ← call w.uuid4
    let final_job_id = w.hex job
    created_at ← call w.now
    modify (save_job final_job_id tenant_id created_at)
    records_deleted ← call_port (λ n. w.records.cascade_delete_all n tenant_id)
    call_port (λ n. w.schemas.drop_schema n frozen.schema_name)
    modify (purge (w.digest.str_uuid tenant_id))
    audit_entry ← create_audit_entry w tenant_id data_erased nobody (
        ("records_deleted", int records_deleted)
        ∷ ("schema_dropped", text frozen.schema_name)
        ∷ ("final_export_job_id", text final_job_id)
        ∷ [])
    leaving ← advance deprovisioning frozen
    advance deleted leaving
    pure (record {
      tenant_id = tenant_id;
      schemas_dropped = frozen.schema_name ∷ [];
      records_deleted = records_deleted;
      caches_purged = true;
      audit_entry_id = audit_entry.id;
    })

  or_default : Uuid → Option RetentionPolicy → Action RetentionPolicy
  or_default tenant_id none = do now ← call w.now; pure (default_policy tenant_id now)
  or_default tenant_id (some policy) = pure policy

  pub get_retention_policy : Uuid → Action RetentionPolicy
  get_retention_policy tenant_id = do
    get_tenant tenant_id
    policy ← gets (λ s. PolicyRepo.get_policy s.policies tenant_id)
    or_default tenant_id policy

  pub update_retention_policy : Uuid → RetentionPolicy → Action RetentionPolicy
  update_retention_policy tenant_id policy = do
    get_tenant tenant_id
    now ← call w.now
    let saved = record policy { updated_at = now }
    modify (save_policy saved)
    create_audit_entry w tenant_id tenant_updated nobody (
        ("event", text "retention_policy_updated")
        ∷ ("retention_days", int policy.retention_days)
        ∷ ("grace_period_days", int policy.grace_period_days)
        ∷ [])
    pure saved

  -- `if record_ids: n = delete(record_ids)`, where `n` was 0.
  delete_some : (ℕ → List Uuid → Reply ℕ) → List Uuid → Action ℕ
  delete_some delete [] = pure 0
  delete_some delete (id ∷ ids) = call_port (λ n. delete n (id ∷ ids))

  pub run_retention_cleanup : Uuid → Action CleanupResult
  run_retention_cleanup tenant_id = do
    get_tenant tenant_id
    policy ← get_retention_policy tenant_id
    today ← call w.today
    let retention_threshold = today - policy.retention_days
    let grace_threshold = today - (policy.retention_days + policy.grace_period_days)
    expired_ids ← call_port (λ n. w.records.find_expired_records n tenant_id retention_threshold)
    soft_deleted ← delete_some w.records.soft_delete_records expired_ids
    grace_ids ← call_port (λ n. w.records.find_soft_deleted_past_grace n tenant_id grace_threshold)
    hard_deleted ← delete_some w.records.hard_delete_records grace_ids
    when (ltb 0 soft_deleted || ltb 0 hard_deleted) (
        create_audit_entry w tenant_id retention_executed nobody (
          ("soft_deleted", int soft_deleted)
          ∷ ("hard_deleted", int hard_deleted)
          ∷ ("retention_days", int policy.retention_days)
          ∷ ("grace_period_days", int policy.grace_period_days)
          ∷ [])
        >> pure tt)
    pure (record {
      tenant_id = tenant_id;
      records_soft_deleted = soft_deleted;
      records_hard_deleted = hard_deleted;
    })

unfoldable pub get_export_status : String → Action ExportJob
get_export_status job_id = do
  job ← gets (λ s. JobRepo.get_status s.jobs job_id)
  or_raise job (value_error "Export job not found")
