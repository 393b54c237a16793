-- ===== src/Adapters/Tenants.antt =====
-- `InMemoryTenantRepository`
use eu_saas.Prelude.{
  ℕ, String, Option, none, some, List, length, take, drop, filter, ◌==◌, nat_eq, string_eq, Dict,
  values, lookup, insert,
}
use eu_saas.Domain.Values.{Uuid}
use eu_saas.Domain.Tenant.{Tenant, TenantStatus, status_eq}

pub record TenantRepo : Type 0 where
  pub store : Dict Uuid Tenant
  pub by_slug : Dict String Uuid

unfoldable pub get_by_id : TenantRepo → Uuid → Option Tenant
get_by_id r tenant_id = lookup tenant_id r.store

abbrev look_up_id : TenantRepo → Option Uuid → Option Tenant
look_up_id r none = none
look_up_id r (some tid) = lookup tid r.store

unfoldable pub get_by_slug : TenantRepo → String → Option Tenant
get_by_slug r slug = look_up_id r (lookup slug r.by_slug)

abbrev pub matching : Option TenantStatus → List Tenant → List Tenant
matching none items = items
matching (some status) items = filter (λ t. t.status == status) items

unfoldable pub list_tenants : TenantRepo → ℕ → ℕ → Option TenantStatus → List Tenant × ℕ
list_tenants r offset limit status_filter =
    let items = matching status_filter (values r.store) in
    (take limit (drop offset items), length items)

unfoldable pub save : Tenant → TenantRepo → TenantRepo
save tenant r = record {
  store = insert tenant.id tenant r.store;
  by_slug = insert tenant.slug tenant.id r.by_slug;
}

unfoldable pub update : Tenant → TenantRepo → TenantRepo
update tenant r = record r { store = insert tenant.id tenant r.store }
