-- ===== src/Platform/Log.antt =====
-- The audit log under every sequence of requests.
use eu_saas.Prelude.{List}
use eu_saas.Container.{Container, World}
use eu_saas.Container.Follows.{Follows}
use eu_saas.Services.Auditing.Chain.{Appends, Appends-preorder, Appends-Respects, append_rules}
use eu_saas.Services.Tenants.Log.{
  create_tenant-Appends, update_tenant-Appends, suspend_tenant-Appends, activate_tenant-Appends,
  deprovision_tenant-Appends,
}
use eu_saas.Services.Gdpr.Log.{execute_erasure-Appends}
use eu_saas.Tasks.Log.{
  provision_tenant_async-Appends, deprovision_tenant_async-Appends, execute_erasure_task-Appends,
}
use eu_saas.Services.Gdpr.Effects.{get_export_status-Follows}
use eu_saas.Services.Billing.Effects.{get_cost_breakdown-Follows}
use eu_saas.Tasks.Effects.{export_tenant_data_task-Follows}
use eu_saas.Platform.Effects.{effects}
use eu_saas.Platform.{Request, handle, serve}
use eu_saas.Platform.History.{serve-Follows}

ruleset methods = (
  append_rules, Appends-Respects, effects, create_tenant-Appends, update_tenant-Appends,
  suspend_tenant-Appends, activate_tenant-Appends, deprovision_tenant-Appends,
  execute_erasure-Appends, provision_tenant_async-Appends, deprovision_tenant_async-Appends,
  execute_erasure_task-Appends,
)

handle-Appends : (w : World) (r : Request) → Follows (Appends w) (handle w r)
unfolding handle
handle-Appends w (Request.get_tenant id) = search methods
handle-Appends w (Request.get_export_status job_id) =
    search (methods, get_export_status-Follows w (Appends-Respects w))
handle-Appends w (Request.export_task id job_id) =
    search (methods, export_tenant_data_task-Follows w (Appends-Respects w))
handle-Appends w (Request.get_cost_breakdown id start_date end_date) =
    search (methods, get_cost_breakdown-Follows w (Appends-Respects w))
handle-Appends w _ = search methods

-- Whatever requests and tasks a container serves, in any order and whether they raise or not,
-- nothing of its audit log is lost or reordered, and a log that was a valid hash chain is one
-- afterwards.
pub serve-Appends : (w : World) (rs : List Request) (s : Container) → Appends w s (serve w rs s)
serve-Appends w = serve-Follows w (Appends-preorder w) (handle-Appends w)
