-- ===== src/Platform.antt =====
-- The platform as a whole: the calls that the presentation layer and the Celery workers make of
-- one container, in any order. A call that raises leaves what it wrote, and the next one goes on.
pub mod History
pub mod Effects
pub mod Log
pub mod Lifecycle
use eu_saas.Prelude.{ℕ, String, Option, List, [], ◌∷◌}
use eu_saas.Domain.Values.{Uuid, Date, Attributes}
use eu_saas.Domain.Decimal.{Decimal}
use eu_saas.Domain.Billing.{ResourceType}
use eu_saas.Domain.Tenant.{TenantStatus}
use eu_saas.Adapters.Policies.{RetentionPolicy}
use eu_saas.Container.{Container, World, Action, ◌>>=◌, ◌>>◌, pure}
use eu_saas.Services.Tenants
use eu_saas.Services.Tenants.{Update}
use eu_saas.Services.Auth
use eu_saas.Services.Gdpr
use eu_saas.Services.Billing
use eu_saas.Tasks
use eu_saas.Tasks.Billing as BillingTasks

pub data Request : Type 0 where
  create_tenant : (name slug owner_email : String) → Option Attributes → Request
  get_tenant suspend_tenant activate_tenant deprovision_tenant : Uuid → Request
  list_tenants : (page size : ℕ) → Option TenantStatus → Request
  update_tenant : Uuid → List Update → Request
  register_user : Uuid → (email password full_name : String) → Request
  authenticate : (email password : String) → Request
  refresh_token get_current_user : (token : String) → Request
  export_tenant_data execute_erasure get_retention_policy run_retention_cleanup : Uuid → Request
  update_retention_policy : Uuid → RetentionPolicy → Request
  get_export_status : (job_id : String) → Request
  provision_task deprovision_task erasure_task : Uuid → Request
  migration_task : (tenant_slug : String) → Request
  export_task : Uuid → (job_id : String) → Request
  cleanup_task : Request
  record_usage : Uuid → ResourceType → Decimal → (unit : String) → Request
  calculate_daily_costs : Uuid → Date → Request
  get_cost_breakdown generate_invoice : Uuid → Date → Date → Request
  project_monthly_cost check_anomalies : Uuid → Request
  daily_costs_task anomalies_task invoices_task : Request

abbrev done : {A : Type 0} → Action A → Action (Unit {0})
done m = m >> pure tt

module _ (w : World) where
  unfoldable pub handle : Request → Action (Unit {0})
  handle (create_tenant name slug owner_email settings) =
      done (Tenants.create_tenant w name slug owner_email settings)
  handle (get_tenant id) = done (Tenants.get_tenant id)
  handle (suspend_tenant id) = done (Tenants.suspend_tenant w id)
  handle (activate_tenant id) = done (Tenants.activate_tenant w id)
  handle (deprovision_tenant id) = done (Tenants.deprovision_tenant w id)
  handle (list_tenants page size status) = done (Tenants.list_tenants page size status)
  handle (update_tenant id updates) = done (Tenants.update_tenant w id updates)
  handle (register_user id email password full_name) =
      done (Auth.register_user w id email password full_name)
  handle (authenticate email password) = done (Auth.authenticate w email password)
  handle (refresh_token token) = done (Auth.refresh_token w token)
  handle (get_current_user token) = done (Auth.get_current_user w token)
  handle (export_tenant_data id) = done (Gdpr.export_tenant_data w id)
  handle (execute_erasure id) = done (Gdpr.execute_erasure w id)
  handle (get_retention_policy id) = done (Gdpr.get_retention_policy w id)
  handle (run_retention_cleanup id) = done (Gdpr.run_retention_cleanup w id)
  handle (update_retention_policy id policy) = done (Gdpr.update_retention_policy w id policy)
  handle (get_export_status job_id) = done (Gdpr.get_export_status job_id)
  handle (provision_task id) = Tasks.provision_tenant_async w id
  handle (deprovision_task id) = Tasks.deprovision_tenant_async w id
  handle (erasure_task id) = done (Tasks.execute_erasure_task w id)
  handle (migration_task slug) = done (Tasks.run_tenant_migrations w slug)
  handle (export_task id job_id) = Tasks.export_tenant_data_task id job_id
  handle cleanup_task = done (Tasks.run_retention_cleanup_all w)
  handle (record_usage id t quantity unit) = done (Billing.record_usage w id t quantity unit)
  handle (calculate_daily_costs id date) = done (Billing.calculate_daily_costs w id date)
  handle (get_cost_breakdown id start_date end_date) =
      done (Billing.get_cost_breakdown id start_date end_date)
  handle (generate_invoice id start_date end_date) =
      done (Billing.generate_invoice w id start_date end_date)
  handle (project_monthly_cost id) = done (Billing.project_monthly_cost w id)
  handle (check_anomalies id) = done (Billing.check_anomalies w id)
  handle daily_costs_task = done (BillingTasks.aggregate_daily_costs w)
  handle anomalies_task = done (BillingTasks.detect_anomalies w)
  handle invoices_task = done (BillingTasks.generate_monthly_invoices w)

  unfoldable pub serve : List Request → Container → Container
  serve [] s = s
  serve (r ∷ rs) s = serve rs (handle r s).1
