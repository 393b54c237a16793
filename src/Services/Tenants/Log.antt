-- ===== src/Services/Tenants/Log.antt =====
-- The methods of TenantService and the audit log.
use eu_saas.Services.Tenants.Effects.{enqueue-Follows, get_tenant-Follows}
use eu_saas.Domain.Errors.{Error}
use eu_saas.Prelude.{Option, String, List, refl}
use eu_saas.Domain.Values.{Attributes, Uuid}
use eu_saas.Domain.Tenant.{Tenant, TenantStatus}
use eu_saas.Container.{World, modify}
use eu_saas.Container.Follows.{Follows}
use eu_saas.Services.Auditing.Chain.{
  Appends, Appends-preorder, Appends-Respects, append_rules, modify-Appends,
}
use eu_saas.Services.Tenants.{
  Update, update_stored, save_tenant, transition, provision, roll_back, create_tenant,
  update_tenant, suspend_tenant, activate_tenant, deprovision_tenant,
}

module _ (w : World) where
  pub update_stored-Appends : (t : Tenant) → Follows (Appends w) (modify (update_stored t))
  update_stored-Appends t = modify-Appends w (update_stored t) (λ s. refl)

  pub transition-Appends :
      (t : Tenant) (status : TenantStatus) → Follows (Appends w) (transition w t status)
  unfolding transition
  transition-Appends t status = search (append_rules, update_stored-Appends)

  pub suspend_tenant-Appends : (tenant_id : Uuid) → Follows (Appends w) (suspend_tenant w tenant_id)
  unfolding suspend_tenant
  suspend_tenant-Appends tenant_id =
      search (append_rules, get_tenant-Follows (Appends-preorder w), transition-Appends)

  pub activate_tenant-Appends :
      (tenant_id : Uuid) → Follows (Appends w) (activate_tenant w tenant_id)
  unfolding activate_tenant
  activate_tenant-Appends tenant_id =
      search (append_rules, get_tenant-Follows (Appends-preorder w), transition-Appends)

  pub deprovision_tenant-Appends :
      (tenant_id : Uuid) → Follows (Appends w) (deprovision_tenant w tenant_id)
  unfolding deprovision_tenant
  deprovision_tenant-Appends tenant_id =
      search
        (
          append_rules,
          get_tenant-Follows (Appends-preorder w),
          transition-Appends,
          enqueue-Follows (Appends-Respects w),
        )
        depth 9

  pub update_tenant-Appends :
      (tenant_id : Uuid) (updates : List Update)
      → Follows (Appends w) (update_tenant w tenant_id updates)
  unfolding update_tenant
  update_tenant-Appends tenant_id updates =
      search (append_rules, get_tenant-Follows (Appends-preorder w), update_stored-Appends) depth 9

  provision-Appends : (t : Tenant) → Follows (Appends w) (provision w t)
  unfolding provision
  provision-Appends t = search (append_rules, transition-Appends) depth 9

  roll_back-Appends : (tenant_id : Uuid) (e : Error) → Follows (Appends w) (roll_back w tenant_id e)
  unfolding roll_back
  roll_back-Appends tenant_id e =
      search
        (
          append_rules,
          get_tenant-Follows (Appends-preorder w),
          transition-Appends,
          update_stored-Appends,
        )
        depth 9

  save_tenant-Appends : (t : Tenant) → Follows (Appends w) (modify (save_tenant t))
  save_tenant-Appends t = modify-Appends w (save_tenant t) (λ s. refl)

  pub create_tenant-Appends :
      (name slug owner_email : String) (settings : Option Attributes)
      → Follows (Appends w) (create_tenant w name slug owner_email settings)
  unfolding create_tenant
  create_tenant-Appends name slug owner_email settings =
      search (append_rules, save_tenant-Appends, provision-Appends, roll_back-Appends) depth 12
