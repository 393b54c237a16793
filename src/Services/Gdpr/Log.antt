-- ===== src/Services/Gdpr/Log.antt =====
-- The erasure and the audit log.
use eu_saas.Domain.Values.{Uuid}
use eu_saas.Domain.Tenant.{Tenant, TenantStatus}
use eu_saas.Container.{World}
use eu_saas.Container.Follows.{Follows}
use eu_saas.Services.Auditing.Chain.{Appends, Appends-preorder, Appends-Respects, append_rules}
use eu_saas.Services.Tenants.Log.{update_stored-Appends}
use eu_saas.Services.Tenants.Effects.{get_tenant-Follows}
use eu_saas.Services.Gdpr.Effects.{save_job-Follows, purge-Follows}
use eu_saas.Services.Gdpr.{move_to, freeze, advance, execute_erasure}

module _ (w : World) where
  move_to-Appends : (status : TenantStatus) (t : Tenant) → Follows (Appends w) (move_to w status t)
  unfolding move_to
  move_to-Appends status t = search (append_rules, update_stored-Appends) depth 8

  freeze-Appends : (t : Tenant) → Follows (Appends w) (freeze w t)
  unfolding freeze
  freeze-Appends t = search (append_rules, move_to-Appends) depth 8

  advance-Appends : (status : TenantStatus) (t : Tenant) → Follows (Appends w) (advance w status t)
  unfolding advance
  advance-Appends status t = search (append_rules, move_to-Appends) depth 8

  pub execute_erasure-Appends :
      (tenant_id : Uuid) → Follows (Appends w) (execute_erasure w tenant_id)
  unfolding execute_erasure
  execute_erasure-Appends tenant_id =
      search
        (
          append_rules,
          get_tenant-Follows (Appends-preorder w),
          freeze-Appends,
          save_job-Follows w (Appends-Respects w),
          purge-Follows w (Appends-Respects w),
          advance-Appends,
        )
        depth 18
