-- ===== src/Services/Tenants/Lifecycle.antt =====
-- The methods of TenantService that are one transition, and the registry of tenants.
use eu_saas.Domain.Values.{Uuid}
use eu_saas.Domain.Tenant.{Tenant, TenantStatus}
use eu_saas.Container.{World, Action, ◌>>=◌}
use eu_saas.Container.Follows.{Follows}
use eu_saas.Container.Holds.{>>=-Holds}
use eu_saas.Services.Registry.{leave_rules, Evolution, Evolution-preorder, Leaves, Leaves-Respects}
use eu_saas.Services.Registry.Writes.{IsStored-of_Leaves}
use eu_saas.Services.Tenants.Effects.{enqueue-Follows}
use eu_saas.Services.Tenants.Steps.{rest-Holds, get_tenant-Holds, transition-Holds, Holds→Evolution}
use eu_saas.Services.Tenants.{
  get_tenant, transition, suspend_tenant, activate_tenant, deprovision_tenant,
}

module _ (w : World) where
  -- `get_tenant`, a transition, and a rest that leaves the registry alone.
  pub move-Follows :
      {B : Type 0} (tenant_id : Uuid) (status : TenantStatus) (rest : Tenant → Action B)
      → ((c : Tenant) → Follows Leaves (rest c))
      → Follows (Evolution w) (get_tenant tenant_id >>= λ t. transition w t status >>= rest)
  move-Follows tenant_id status rest h =
      let p = Evolution-preorder w in
      Holds→Evolution {E = λ s. Unit} w _ (
        >>=-Holds p _ _ (get_tenant-Holds w tenant_id) λ t.
          >>=-Holds p _ _
            (transition-Holds w t status
              (λ s s' l pre. (IsStored-of_Leaves w t s s' l pre.0, pre.1)) (λ s pre. pre.0)
              (λ s pre. tt))
            λ c. rest-Holds w (rest c) (h c))

  pub suspend_tenant-Evolution :
      (tenant_id : Uuid) → Follows (Evolution w) (suspend_tenant w tenant_id)
  unfolding suspend_tenant
  suspend_tenant-Evolution tenant_id = move-Follows tenant_id _ _ (λ c. search leave_rules)

  pub activate_tenant-Evolution :
      (tenant_id : Uuid) → Follows (Evolution w) (activate_tenant w tenant_id)
  unfolding activate_tenant
  activate_tenant-Evolution tenant_id = move-Follows tenant_id _ _ (λ c. search leave_rules)

  pub deprovision_tenant-Evolution :
      (tenant_id : Uuid) → Follows (Evolution w) (deprovision_tenant w tenant_id)
  unfolding deprovision_tenant
  deprovision_tenant-Evolution tenant_id =
      move-Follows tenant_id _ _ (λ c. search (leave_rules, enqueue-Follows (Leaves-Respects w)))
