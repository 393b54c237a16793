-- ===== src/Platform/Lifecycle.antt =====
-- The registry of tenants under every sequence of requests.
use eu_saas.Prelude.{arith, subst, List, ◌≡◌, some, lookup, nat_eq, string_eq}
use eu_saas.Container.{fresh, Container, World}
use eu_saas.Container.Follows.{Follows}
use eu_saas.Domain.Values.{Uuid}
use eu_saas.Domain.Tenant.{Tenant, deleted}
use eu_saas.Domain.Lifecycle.Order.{Reaches-deleted, Reaches}
use eu_saas.Services.Respect.{respect_rules}
use eu_saas.Services.Registry.{
  Succeeds, AreDistinct, IsConsistent, Evolution, Evolution-preorder, Evolution-Respects,
}
use eu_saas.Services.Tenants.Lifecycle.{
  suspend_tenant-Evolution, activate_tenant-Evolution, deprovision_tenant-Evolution,
}
use eu_saas.Services.Tenants.Creation.{create_tenant-Evolution, update_tenant-Evolution}
use eu_saas.Services.Gdpr.Lifecycle.{execute_erasure-Evolution}
use eu_saas.Services.Gdpr.Effects.{get_export_status-Follows}
use eu_saas.Services.Billing.Effects.{get_cost_breakdown-Follows}
use eu_saas.Tasks.Effects.{export_tenant_data_task-Follows}
use eu_saas.Tasks.Lifecycle.{
  provision_tenant_async-Evolution, deprovision_tenant_async-Evolution,
  execute_erasure_task-Evolution,
}
use eu_saas.Platform.Effects.{effects}
use eu_saas.Platform.{Request, handle, serve}
use eu_saas.Platform.History.{serve-Follows}

ruleset methods = (
  respect_rules, Evolution-preorder, Evolution-Respects, effects, create_tenant-Evolution,
  update_tenant-Evolution, suspend_tenant-Evolution, activate_tenant-Evolution,
  deprovision_tenant-Evolution, execute_erasure-Evolution, provision_tenant_async-Evolution,
  deprovision_tenant_async-Evolution, execute_erasure_task-Evolution,
)

-- There are no tenants at first.
pub fresh-IsConsistent : (w : World) → IsConsistent w fresh
unfolding lookup
fresh-IsConsistent w = record {
  filed = λ k t e. ground (arith, e);
  drawn = λ k t e. ground (arith, e);
  indexed = λ k t e. ground (arith, e);
  pointing = λ slug k e. ground (arith, e);
}

module _ (w : World) (distinct : AreDistinct w) where
  handle-Evolution : (r : Request) → Follows (Evolution w) (handle w r)
  unfolding handle
  handle-Evolution (Request.get_tenant id) = search methods
  handle-Evolution (Request.get_export_status job_id) =
      search (methods, get_export_status-Follows w (Evolution-Respects w))
  handle-Evolution (Request.export_task id job_id) =
      search (methods, export_tenant_data_task-Follows w (Evolution-Respects w))
  handle-Evolution (Request.get_cost_breakdown id start_date end_date) =
      search (methods, get_cost_breakdown-Follows w (Evolution-Respects w))
  handle-Evolution _ = search methods

  pub serve-Evolution : (rs : List Request) (s : Container) → Evolution w s (serve w rs s)
  serve-Evolution = serve-Follows w (Evolution-preorder w) handle-Evolution

  -- If uuid4 never repeats and the registry is consistent, a tenant that is stored is stored under
  -- its id after any requests, with the same id, slug, schema name, owner and creation time, and in
  -- a status that valid transitions lead to.
  pub serve-Succeeds :
      (rs : List Request) (s : Container) (k : Uuid) (t : Tenant)
      → IsConsistent w s
      → lookup k s.tenants.store ≡ some t
      → (u : Tenant) × (lookup k (serve w rs s).tenants.store ≡ some u) × Succeeds t u
  serve-Succeeds rs s k t c e = (serve-Evolution rs s c).successor k t e

  -- If uuid4 never repeats and the registry is consistent, a tenant that is DELETED is DELETED after
  -- any requests.
  pub serve-deleted :
      (rs : List Request) (s : Container) (k : Uuid) (t : Tenant)
      → IsConsistent w s
      → lookup k s.tenants.store ≡ some t
      → t.status ≡ deleted
      → (u : Tenant) × (lookup k (serve w rs s).tenants.store ≡ some u) × (u.status ≡ deleted)
  serve-deleted rs s k t c e gone =
      let (u, found, succeeds) = serve-Succeeds rs s k t c e in
      (u, found, Reaches-deleted (subst (λ a. Reaches a u.status) gone succeeds.status))

  -- If uuid4 never repeats, two tenants that a container started empty holds after any requests have
  -- different slugs.
  pub serve-slugs :
      (rs : List Request) (k l : Uuid) (t u : Tenant)
      → lookup k (serve w rs fresh).tenants.store ≡ some t
      → lookup l (serve w rs fresh).tenants.store ≡ some u
      → t.slug ≡ u.slug
      → k ≡ l
  serve-slugs rs k l t u stored stored' same =
      let c = (serve-Evolution rs fresh (fresh-IsConsistent w)).consistent in
      ground (arith, c.indexed k t stored, c.indexed l u stored', same)
