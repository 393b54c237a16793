-- ===== src/Tasks/Billing.antt =====
-- src/application/tasks/billing_tasks.py. An entry of `errors` is the tenant's id and the exception,
-- which the code formats into a text.
pub mod Effects
pub mod Sweeps
pub mod Invoices
use eu_saas.Prelude.{ℕ, ◌+◌, ◌-◌, ◌++◌, List, [], ◌∷◌, length}
use eu_saas.Domain.Values.{Uuid, Date}
use eu_saas.Domain.Tenant.{Tenant}
use eu_saas.Domain.Errors.{Error}
use eu_saas.Container.{World, Action, ◌>>=◌, ◌>>◌, pure, call, try_except}
use eu_saas.Services.Billing.{month_start, calculate_daily_costs, generate_invoice, check_anomalies}
use eu_saas.Tasks.{active_tenants}

-- What the loop over the tenants counts: how many bodies ended without an exception, the sum of
-- what they gave, and the exceptions.
pub record Tally : Type 0 where
  pub processed : ℕ
  pub amount : ℕ
  pub errors : List (Uuid × Error)

abbrev pub empty_tally : Tally
empty_tally = record { processed = 0; amount = 0; errors = [] }

abbrev pub succeeded : Tally → ℕ → Tally
succeeded tally n = record tally { processed = tally.processed + 1; amount = tally.amount + n }

abbrev pub failed : Tally → Uuid → Error → Tally
failed tally id e = record tally { errors = tally.errors ++ (id, e) ∷ [] }

-- `for tenant in tenants: try: body(tenant) except Exception as exc: …`
unfoldable pub attempt : (Tenant → Action ℕ) → Tally → Tenant → Action Tally
attempt body tally tenant =
    try_except (do n ← body tenant; pure (succeeded tally n)) (λ e. pure (failed tally tenant.id e))

unfoldable pub for_each : (Tenant → Action ℕ) → Tally → List Tenant → Action Tally
for_each body tally [] = pure tally
for_each body tally (tenant ∷ tenants) =
    attempt body tally tenant >>= λ next. for_each body next tenants

pub record DailyCosts : Type 0 where
  pub date : Date
  pub tenants_processed : ℕ
  pub errors : List (Uuid × Error)

pub record AnomalySweep : Type 0 where
  pub tenants_checked : ℕ
  pub anomalies_found : ℕ

pub record MonthlyInvoices : Type 0 where
  pub period_start : Date
  pub period_end : Date
  pub invoices_generated : ℕ
  pub errors : List (Uuid × Error)

abbrev pub daily_costs : Date → Tally → DailyCosts
daily_costs date tally = record {
  date = date;
  tenants_processed = tally.processed;
  errors = tally.errors;
}

abbrev pub anomaly_sweep : Tally → AnomalySweep
anomaly_sweep tally = record { tenants_checked = tally.processed; anomalies_found = tally.amount }

abbrev pub monthly_invoices : Date → Date → Tally → MonthlyInvoices
monthly_invoices period_start period_end tally = record {
  period_start = period_start;
  period_end = period_end;
  invoices_generated = tally.processed;
  errors = tally.errors;
}

module _ (w : World) where
  unfoldable pub cost_body : Date → Tenant → Action ℕ
  cost_body target_date tenant = do calculate_daily_costs w tenant.id target_date; pure 0

  pub aggregate_daily_costs : Action DailyCosts
  aggregate_daily_costs = do
    today ← call w.today
    tenants ← active_tenants
    tally ← for_each (cost_body (today - 1)) empty_tally tenants
    pure (daily_costs (today - 1) tally)

  unfoldable pub anomaly_body : Tenant → Action ℕ
  anomaly_body tenant = do anomalies ← check_anomalies w tenant.id; pure (length anomalies)

  pub detect_anomalies : Action AnomalySweep
  detect_anomalies = do
    tenants ← active_tenants
    tally ← for_each anomaly_body empty_tally tenants
    pure (anomaly_sweep tally)

  -- The last day of the month before, `today.replace(day=1) - timedelta(days=1)`.
  abbrev pub last_of_prev_month : Date → Date
  last_of_prev_month today = month_start w today - 1

  unfoldable pub invoice_body : Date → Date → Tenant → Action ℕ
  invoice_body period_start period_end tenant = do
    generate_invoice w tenant.id period_start period_end
    pure 0

  pub generate_monthly_invoices : Action MonthlyInvoices
  generate_monthly_invoices = do
    today ← call w.today
    let period_end = last_of_prev_month today
    let period_start = month_start w period_end
    tenants ← active_tenants
    tally ← for_each (invoice_body period_start period_end) empty_tally tenants
    pure (monthly_invoices period_start period_end tally)
