-- ===== src/Tasks/Billing/Effects.antt =====
-- What the billing tasks follow, also when they raise.
use eu_saas.Prelude.{ℕ, List, [], ◌∷◌}
use eu_saas.Domain.Values.{Date}
use eu_saas.Domain.Tenant.{Tenant}
use eu_saas.Container.{Container, World, Action}
use eu_saas.Container.Follows.{Follows, Preorder, >>=-Follows, follow_rules}
use eu_saas.Services.Respect.{Respects, respect_rules}
use eu_saas.Services.Billing.Effects.{
  calculate_daily_costs-Follows, generate_invoice-Follows, check_anomalies-Follows,
}
use eu_saas.Tasks.{active_tenants}
use eu_saas.Tasks.Billing.{
  Tally, attempt, for_each, cost_body, anomaly_body, invoice_body, aggregate_daily_costs,
  detect_anomalies, generate_monthly_invoices,
}

module _ {R : Container → Container → Type 0} (p : Preorder R) (body : Tenant → Action ℕ)
    (h : (t : Tenant) → Follows R (body t)) where
  attempt-Follows : (tally : Tally) (t : Tenant) → Follows R (attempt body tally t)
  unfolding attempt
  attempt-Follows tally t = search (follow_rules, p, h)

  pub for_each-Follows :
      (tally : Tally) (tenants : List Tenant) → Follows R (for_each body tally tenants)
  unfolding for_each
  for_each-Follows tally [] = search (follow_rules, p)
  for_each-Follows tally (t ∷ tenants) =
      >>=-Follows p _ _ (attempt-Follows tally t) (λ next. for_each-Follows next tenants)

module _ (w : World) {R : Container → Container → Type 0} (r : Respects w R) where
  cost_body-Follows : (date : Date) (t : Tenant) → Follows R (cost_body w date t)
  unfolding cost_body
  cost_body-Follows date t = search (respect_rules, calculate_daily_costs-Follows)

  anomaly_body-Follows : (t : Tenant) → Follows R (anomaly_body w t)
  unfolding anomaly_body
  anomaly_body-Follows t = search (respect_rules, check_anomalies-Follows)

  invoice_body-Follows :
      (period_start period_end : Date) (t : Tenant)
      → Follows R (invoice_body w period_start period_end t)
  unfolding invoice_body
  invoice_body-Follows period_start period_end t = search (respect_rules, generate_invoice-Follows)

  pub aggregate_daily_costs-Follows : Follows R (aggregate_daily_costs w)
  unfolding aggregate_daily_costs active_tenants
  aggregate_daily_costs-Follows =
      search (respect_rules, for_each-Follows, cost_body-Follows) depth 12

  pub detect_anomalies-Follows : Follows R (detect_anomalies w)
  unfolding detect_anomalies active_tenants
  detect_anomalies-Follows = search (respect_rules, for_each-Follows, anomaly_body-Follows) depth 12

  pub generate_monthly_invoices-Follows : Follows R (generate_monthly_invoices w)
  unfolding generate_monthly_invoices active_tenants
  generate_monthly_invoices-Follows =
      search (respect_rules, for_each-Follows, invoice_body-Follows) depth 12
