-- ===== src/Tests/Billing.antt =====
-- Billing: a tenant with two days of usage, and one with three days of costs.
use eu_saas.Prelude.{
  ◌+◌, ◌≤◌, arith, ℕ, ◌≡◌, refl, false, none, List, [], ◌∷◌, ◌==◌, nat_eq, lookup, insert, All,
}
use eu_saas.Prelude.Totals.{add_at}
use eu_saas.Domain.Values.{days}
use eu_saas.Domain.Decimal.{round_half_even, quantize, Decimal, plus, times, zero_decimal}
use eu_saas.Domain.Decimal.Laws.{decimal_additive}
use eu_saas.Domain.Decimal.Rounding.{IsNear}
use eu_saas.Domain.Billing.{cpu, storage, UsageRecord, CostRecord, CostAnomaly, Invoice, Reading}
use eu_saas.Adapters.Costs.{get_by_tenant_and_range}
use eu_saas.Adapters.Anomalies.{save_many}
use eu_saas.Adapters.AuditEntries.{save, get_latest_entry}
use eu_saas.Domain.Audit.{audit_entry, compute_entry_hash}
use eu_saas.Services.Auditing.{create_audit_entry}
use eu_saas.Container.{Container, ok, running}
use eu_saas.Services.CostCalculator.{calculate_cost, detect_anomaly, flagged, found, deviation}
use eu_saas.Services.CostCalculator.Prices.{unit_price, calculate_cost-IsNear}
use eu_saas.Services.Billing.{
  sorted, historical, daily_totals, costs_between, report, examine, examine_all, CostBreakdown,
  calculate_daily_costs, get_cost_breakdown, generate_invoice, check_anomalies,
}
use eu_saas.Services.Billing.Totals.{
  Accounts, records_between, get_cost_breakdown-Accounts, total_between,
}
use eu_saas.Services.Billing.Daily.{IsBilled, calculate_daily_costs-IsBilled}
use eu_saas.Services.Billing.Repeats.{calculate_daily_costs_twice}
use eu_saas.Services.Billing.Invoicing.{IsInvoiced, generate_invoice-IsInvoiced}
use eu_saas.Services.Billing.Alarms.{
  IsReported, window, check_anomalies-IsReported, check_anomalies-blind,
}
use eu_saas.Tasks.Billing.{MonthlyInvoices, generate_monthly_invoices}
use eu_saas.Tasks.Billing.Invoices.{IsComplete, generate_monthly_invoices-IsComplete}
use eu_saas.Tests.Fixtures.{world, world-AreDistinct, office}

abbrev cents : ℕ → Decimal
cents n = record { digits = n; places = 2 }

abbrev used_cpu : ℕ → ℕ → UsageRecord
used_cpu id quantity = record {
  id = id;
  tenant_id = 7;
  resource_type = cpu;
  quantity = record { digits = quantity; places = 0 };
  unit = "hour";
  recorded_at = days 19999;
}

abbrev stored_on : ℕ → ℕ → CostRecord
stored_on id day = record {
  id = id;
  tenant_id = 7;
  date = day;
  resource_type = storage;
  quantity = record { digits = 500; places = 0 };
  unit_price = cents 1;
  total_cost = cents 500;
  currency = "EUR";
}

-- The office, with usage of yesterday, and with the costs of three days before today.
abbrev metered : Container
metered = record office {
  usage = used_cpu 1 3 ∷ used_cpu 2 4 ∷ [];
  costs = stored_on 3 19997 ∷ stored_on 4 19998 ∷ stored_on 5 19999 ∷ [];
}

calculate_daily_costs-IsBilled_example :
    (records : List CostRecord) × ((calculate_daily_costs world 7 19999 metered).0 ≡ ok records)
    × IsBilled world 7 19999 metered records (calculate_daily_costs world 7 19999 metered).1
calculate_daily_costs-IsBilled_example = calculate_daily_costs-IsBilled world 7 19999 metered

calculate_daily_costs_twice_example :
    let t = (calculate_daily_costs world 7 19999 metered).1 in
    let u = (calculate_daily_costs world 7 19999 t).1 in
    (amount : Decimal) × (total_between 7 19999 19999 t
      ≡ plus (total_between 7 19999 19999 metered) amount)
    × (total_between 7 19999 19999 u
        ≡ plus (plus (total_between 7 19999 19999 metered) amount) amount)
calculate_daily_costs_twice_example = calculate_daily_costs_twice world 7 19999 metered

get_cost_breakdown-Accounts_example :
    (b : CostBreakdown) × (get_cost_breakdown 7 19997 19999 metered ≡ (ok b, metered))
    × Accounts (records_between 7 19997 19999 metered) b
get_cost_breakdown-Accounts_example = get_cost_breakdown-Accounts 7 19997 19999 metered

generate_invoice-IsInvoiced_example :
    (invoice : Invoice) × ((generate_invoice world 7 19997 19999 metered).0 ≡ ok invoice)
    × IsInvoiced world 7 19997 19999 metered invoice
        (generate_invoice world 7 19997 19999 metered).1
generate_invoice-IsInvoiced_example = generate_invoice-IsInvoiced world 7 19997 19999 metered

calculate_cost-IsNear_example :
    IsNear 6
      (times (record { digits = 123456789; places = 8 }) (unit_price cpu none))
      (calculate_cost cpu (record { digits = 123456789; places = 8 }) none)
unfolding lookup times quantize round_half_even
calculate_cost-IsNear_example =
    calculate_cost-IsNear cpu (record { digits = 123456789; places = 8 }) none (omega arith)
      (omega arith)

check_anomalies-IsReported_example :
    (anomalies : List CostAnomaly) × ((check_anomalies world 7 metered).0 ≡ ok anomalies)
    × IsReported world 7 metered anomalies (check_anomalies world 7 metered).1
check_anomalies-IsReported_example = check_anomalies-IsReported world 7 metered

-- The same costs every day, and none yet today: an alarm.
abbrev alarm : CostAnomaly
alarm = record {
  id = 11;
  tenant_id = 7;
  resource_type = storage;
  expected_value = Reading.finite (cents 500);
  actual_value = Reading.finite (cents 0);
  deviation_factor = Reading.finite (cents 65535);
  detected_at = 11;
  acknowledged = false;
}

raised : (check_anomalies world 7 metered).0 ≡ ok (alarm ∷ [])
unfolding check_anomalies examine_all examine report costs_between running daily_totals historical
    sorted detect_anomaly flagged found deviation create_audit_entry audit_entry compute_entry_hash
    get_by_tenant_and_range save_many save get_latest_entry add_at lookup insert plus
raised = refl

none_today : All (λ r. (r.date == 20000) ≡ false) (window world 7 metered)
unfolding get_by_tenant_and_range
none_today = (refl, (refl, (refl, tt)))

check_anomalies-blind_example :
    All (λ a. a.actual_value ≡ world.floats.rounded (world.floats.float zero_decimal)) (alarm ∷ [])
check_anomalies-blind_example = check_anomalies-blind world 7 metered (alarm ∷ []) none_today raised

-- A day has a number from 1 to 30, and the first month starts at the epoch.
numbered : (d : ℕ) → world.calendar.day d ≤ d + 1
numbered d = omega arith

generate_monthly_invoices-IsComplete_example :
    (result : MonthlyInvoices) × ((generate_monthly_invoices world metered).0 ≡ ok result)
    × IsComplete world metered (generate_monthly_invoices world metered).1 result
generate_monthly_invoices-IsComplete_example =
    generate_monthly_invoices-IsComplete world metered world-AreDistinct (λ d. omega arith) numbered
      (omega arith)
