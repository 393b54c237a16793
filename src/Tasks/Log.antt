-- ===== src/Tasks/Log.antt =====
-- The tasks that write tenants, and the audit log.
use eu_saas.Domain.Values.{Uuid}
use eu_saas.Domain.Tenant.{Tenant, TenantStatus}
use eu_saas.Container.{World}
use eu_saas.Container.Follows.{Follows}
use eu_saas.Services.Auditing.Chain.{Appends, Appends-preorder, Appends-Respects, append_rules}
use eu_saas.Services.Tenants.Effects.{get_tenant-Follows}
use eu_saas.Services.Tenants.Log.{transition-Appends}
use eu_saas.Services.Gdpr.Effects.{purge-Follows}
use eu_saas.Services.Gdpr.Log.{execute_erasure-Appends}
use eu_saas.Tasks.{
  transition_from, provision_tenant_async, deprovision_tenant_async, execute_erasure_task,
}

module _ (w : World) where
  transition_from-Appends :
      (from to : TenantStatus) (t : Tenant) → Follows (Appends w) (transition_from w from to t)
  unfolding transition_from
  transition_from-Appends from to t = search (append_rules, transition-Appends)

  pub provision_tenant_async-Appends :
      (tenant_id : Uuid) → Follows (Appends w) (provision_tenant_async w tenant_id)
  unfolding provision_tenant_async
  provision_tenant_async-Appends tenant_id =
      search (append_rules, get_tenant-Follows (Appends-preorder w), transition_from-Appends) depth
        12

  pub deprovision_tenant_async-Appends :
      (tenant_id : Uuid) → Follows (Appends w) (deprovision_tenant_async w tenant_id)
  unfolding deprovision_tenant_async
  deprovision_tenant_async-Appends tenant_id =
      search
        (
          append_rules,
          get_tenant-Follows (Appends-preorder w),
          purge-Follows w (Appends-Respects w),
          transition_from-Appends,
        )
        depth 12

  pub execute_erasure_task-Appends :
      (tenant_id : Uuid) → Follows (Appends w) (execute_erasure_task w tenant_id)
  unfolding execute_erasure_task
  execute_erasure_task-Appends tenant_id = search (append_rules, execute_erasure-Appends)
