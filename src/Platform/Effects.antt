-- ===== src/Platform/Effects.antt =====
-- The methods and tasks that write no tenant.
use eu_saas.Services.Tenants.Effects.{get_tenant-Follows, list_tenants-Follows}
use eu_saas.Services.Auth.Effects.{
  register_user-Follows, authenticate-Follows, refresh_token-Follows, get_current_user-Follows,
}
use eu_saas.Services.Gdpr.Effects.{
  export_tenant_data-Follows, get_retention_policy-Follows, update_retention_policy-Follows,
  run_retention_cleanup-Follows, get_export_status-Follows,
}
use eu_saas.Services.Billing.Effects.{
  record_usage-Follows, calculate_daily_costs-Follows, get_cost_breakdown-Follows,
  generate_invoice-Follows, project_monthly_cost-Follows, check_anomalies-Follows,
}
use eu_saas.Tasks.Billing.Effects.{
  aggregate_daily_costs-Follows, detect_anomalies-Follows, generate_monthly_invoices-Follows,
}
use eu_saas.Tasks.Effects.{
  run_tenant_migrations-Follows, run_retention_cleanup_all-Follows, export_tenant_data_task-Follows,
}

pub ruleset effects = (
  get_tenant-Follows, list_tenants-Follows, register_user-Follows, authenticate-Follows,
  refresh_token-Follows, get_current_user-Follows, export_tenant_data-Follows,
  get_retention_policy-Follows, update_retention_policy-Follows, run_retention_cleanup-Follows,
  get_export_status-Follows, run_tenant_migrations-Follows, run_retention_cleanup_all-Follows,
  export_tenant_data_task-Follows, record_usage-Follows, calculate_daily_costs-Follows,
  get_cost_breakdown-Follows, generate_invoice-Follows, project_monthly_cost-Follows,
  check_anomalies-Follows, aggregate_daily_costs-Follows, detect_anomalies-Follows,
  generate_monthly_invoices-Follows,
)
