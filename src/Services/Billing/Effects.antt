-- ===== src/Services/Billing/Effects.antt =====
-- What the methods of BillingService follow, also when they raise: they write no tenant, and to the
-- audit log only by `create_audit_entry`.
use eu_saas.Prelude.{refl, String, List, [], ◌∷◌, Dict, Option, none, some}
use eu_saas.Domain.Values.{Uuid, Date}
use eu_saas.Domain.Decimal.{Decimal}
use eu_saas.Domain.Billing.{ResourceType, Float}
use eu_saas.Container.{Container, World, modify}
use eu_saas.Container.Follows.{
  Follows, Preorder, >>=-Follows, call-Follows, pure-Follows, follow_rules,
}
use eu_saas.Services.Respect.{Respects, write-Follows, respect_rules}
use eu_saas.Services.CostCalculator.{found, flagged, detect_anomaly}
use eu_saas.Services.Billing.{
  save_usage, save_costs, save_invoice, save_anomalies, costs_between, get_cost_breakdown,
  record_usage, price_all, calculate_daily_costs, project_monthly_cost, generate_invoice, examine,
  examine_all, report, check_anomalies,
}

module _ (w : World) {R : Container → Container → Type 0} (p : Preorder R) where
  found-Follows :
      (current : Float) (historical : List Float) (deviation : Float)
      → Follows R (found w current historical deviation)
  unfolding found
  found-Follows current historical deviation = search (follow_rules, p) depth 12

  flagged-Follows :
      (current : Float) (historical : List Float) (deviation : Option Float)
      → Follows R (flagged w current historical deviation)
  unfolding flagged
  flagged-Follows current historical none = search (follow_rules, p)
  flagged-Follows current historical (some deviation) = search (follow_rules, p, found-Follows)

  detect_anomaly-Follows :
      (current : Float) (historical : List Float) → Follows R (detect_anomaly w current historical)
  unfolding detect_anomaly
  detect_anomaly-Follows current historical = search (follow_rules, p, flagged-Follows)

  pub price_all-Follows :
      (tenant_id : Uuid) (date : Date) (totals : Dict ResourceType Decimal)
      → Follows R (price_all w tenant_id date totals)
  unfolding price_all
  price_all-Follows tenant_id date [] = search (follow_rules, p)
  price_all-Follows tenant_id date ((t, q) ∷ totals) =
      let rest = price_all-Follows tenant_id date totals in
      >>=-Follows p _ _ (call-Follows p _)
        (λ id. >>=-Follows p _ _ rest (λ records. pure-Follows p _))

  examine-Follows :
      (today : Date) (date_map : Dict Date Decimal) → Follows R (examine w today date_map)
  unfolding examine
  examine-Follows today date_map = search (follow_rules, p, detect_anomaly-Follows)

  pub examine_all-Follows :
      (tenant_id : Uuid) (today : Date) (totals : Dict ResourceType (Dict Date Decimal))
      → Follows R (examine_all w tenant_id today totals)
  unfolding examine_all
  examine_all-Follows tenant_id today [] = search (follow_rules, p)
  examine_all-Follows tenant_id today ((t, m) ∷ totals) =
      let rest = examine_all-Follows tenant_id today totals in
      >>=-Follows p _ _ (examine-Follows today m)
        (λ anomaly. >>=-Follows p _ _ rest (λ others. pure-Follows p _))

module _ (w : World) {R : Container → Container → Type 0} (r : Respects w R) where
  pub get_cost_breakdown-Follows :
      (tenant_id : Uuid) (start_date end_date : Date)
      → Follows R (get_cost_breakdown tenant_id start_date end_date)
  unfolding get_cost_breakdown costs_between
  get_cost_breakdown-Follows tenant_id start_date end_date = search respect_rules

  pub project_monthly_cost-Follows :
      (tenant_id : Uuid) → Follows R (project_monthly_cost w tenant_id)
  unfolding project_monthly_cost costs_between
  project_monthly_cost-Follows tenant_id = search respect_rules

  save_usage-Follows : (u : _) → Follows R (modify (save_usage u))
  save_usage-Follows u = write-Follows r (save_usage u) (λ s. refl) (λ s. refl) (λ s. refl)

  save_costs-Follows : (new : _) → Follows R (modify (save_costs new))
  save_costs-Follows new = write-Follows r (save_costs new) (λ s. refl) (λ s. refl) (λ s. refl)

  save_invoice-Follows : (invoice : _) → Follows R (modify (save_invoice invoice))
  save_invoice-Follows invoice =
      write-Follows r (save_invoice invoice) (λ s. refl) (λ s. refl) (λ s. refl)

  save_anomalies-Follows : (new : _) → Follows R (modify (save_anomalies new))
  save_anomalies-Follows new =
      write-Follows r (save_anomalies new) (λ s. refl) (λ s. refl) (λ s. refl)

  pub record_usage-Follows :
      (tenant_id : Uuid) (t : ResourceType) (quantity : Decimal) (unit : String)
      → Follows R (record_usage w tenant_id t quantity unit)
  unfolding record_usage
  record_usage-Follows tenant_id t quantity unit =
      search (respect_rules, save_usage-Follows) depth 12

  pub calculate_daily_costs-Follows :
      (tenant_id : Uuid) (date : Date) → Follows R (calculate_daily_costs w tenant_id date)
  unfolding calculate_daily_costs
  calculate_daily_costs-Follows tenant_id date =
      search (respect_rules, price_all-Follows w r.preorder, save_costs-Follows) depth 12

  pub generate_invoice-Follows :
      (tenant_id : Uuid) (period_start period_end : Date)
      → Follows R (generate_invoice w tenant_id period_start period_end)
  unfolding generate_invoice costs_between
  generate_invoice-Follows tenant_id period_start period_end =
      search (respect_rules, save_invoice-Follows) depth 14

  pub check_anomalies-Follows : (tenant_id : Uuid) → Follows R (check_anomalies w tenant_id)
  unfolding check_anomalies costs_between report
  check_anomalies-Follows tenant_id =
      search (respect_rules, examine_all-Follows w r.preorder, save_anomalies-Follows) depth 14
