-- ===== src/Services/Tenants/Effects.antt =====
-- What the reading methods of TenantService follow, and the write to the queue.
use eu_saas.Prelude.{ℕ, refl, Option}
use eu_saas.Domain.Values.{Uuid}
use eu_saas.Domain.Tenant.{TenantStatus}
use eu_saas.Container.{Container, Task, World, modify}
use eu_saas.Container.Follows.{Preorder, Follows, follow_rules}
use eu_saas.Services.Respect.{Respects, write-Follows}
use eu_saas.Services.Tenants.{enqueue, get_tenant, list_tenants}

module _ {R : Container → Container → Type 0} (p : Preorder R) where
  pub get_tenant-Follows : (tenant_id : Uuid) → Follows R (get_tenant tenant_id)
  unfolding get_tenant
  get_tenant-Follows tenant_id = search follow_rules

  pub list_tenants-Follows :
      (page size : ℕ) (status_filter : Option TenantStatus)
      → Follows R (list_tenants page size status_filter)
  unfolding list_tenants
  list_tenants-Follows page size status_filter = search follow_rules

pub enqueue-Follows :
    {w : World} {R : Container → Container → Type 0} (r : Respects w R) (task : Task)
    → Follows R (modify (enqueue task))
enqueue-Follows r task = write-Follows r (enqueue task) (λ s. refl) (λ s. refl) (λ s. refl)
