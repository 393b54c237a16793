-- ===== src/Presentation/Billing.antt =====
-- src/presentation/api/v1/billing.py
use eu_saas.Prelude.{
  ℕ, String, Option, none, some, List, [], ◌∷◌, Dict, ltb, if◌then◌else◌, bind, ◌-◌, ◌+◌,
}
use eu_saas.Text.{format}
use eu_saas.Domain.Values.{Uuid, Date}
use eu_saas.Domain.Decimal.{Decimal}
use eu_saas.Container.{World, Action, ◌>>=◌, pure, call}
use eu_saas.Services.Billing as BillingService
use eu_saas.Services.Billing.{month_start}
use eu_saas.Presentation.{is_page, Outcome, serialised}
use eu_saas.Presentation.Schemas.{
  has_places, CostLineItem, CostBreakdown, CostProjection, PaginationMeta,
}

-- `none` is a `ValidationError`: the amount has more than four places.
abbrev pub line_item : String → Decimal → Option CostLineItem
line_item k amount =
    if has_places 4 amount
    then some (record {
      service = k;
      amount = amount;
      currency = "EUR";
      unit = "unit";
      quantity = amount;
    })
    else none

abbrev pub line_items : Dict String Decimal → Option (List CostLineItem)
line_items [] = some []
line_items ((k, amount) ∷ rest) =
    bind (line_item k amount) λ item. bind (line_items rest) λ items. some (item ∷ items)

unfoldable pub breakdown_to_response :
    Uuid → Date → Date → BillingService.CostBreakdown → Option CostBreakdown
breakdown_to_response tenant_id period_start period_end breakdown =
    bind (line_items breakdown.by_resource) λ items. some (record {
      tenant_id = tenant_id;
      period_start = period_start;
      period_end = period_end;
      total_amount = breakdown.total;
      currency = "EUR";
      line_items = items;
    })

abbrev get_costs : Uuid → Date → Date → Action (Outcome CostBreakdown)
get_costs tenant_id start_date end_date = do
  breakdown ← BillingService.get_cost_breakdown tenant_id start_date end_date
  pure (serialised 200 (breakdown_to_response tenant_id start_date end_date breakdown))

unfoldable pub get_cost_breakdown : Uuid → Date → Date → Action (Outcome CostBreakdown)
get_cost_breakdown tenant_id start_date end_date =
    if ltb end_date start_date
    then pure (Outcome.refused 400 "end_date must be >= start_date.")
    else get_costs tenant_id start_date end_date

-- A page of a list that is always empty.
abbrev pub empty_page : ℕ → ℕ → PaginationMeta
empty_page page page_size = record {
  page = page;
  page_size = page_size;
  total_items = 0;
  total_pages = 0;
}

module _ (w : World) where
  unfoldable pub get_current_costs : Uuid → Action (Outcome CostBreakdown)
  get_current_costs tenant_id = do
    today ← call w.today
    get_costs tenant_id (month_start w today) today

  unfoldable pub get_cost_projection : Uuid → Action (Outcome CostProjection)
  get_cost_projection tenant_id = do
    projection ← BillingService.project_monthly_cost w tenant_id
    today ← call w.today
    pure (
        Outcome.answered 200 (record {
          tenant_id = tenant_id;
          billing_period_start = month_start w today;
          billing_period_end = month_start w today + w.calendar.days_in_month today - 1;
          actual_to_date = projection.actual_cost;
          projected_total = projection.projected_cost;
          confidence_interval_low = projection.actual_cost;
          confidence_interval_high = projection.projected_cost;
          currency = "EUR";
        }))

  -- No invoice is ever found.
  unfoldable pub get_invoice : Uuid → Uuid → Action (Outcome (Unit {0}))
  get_invoice tenant_id invoice_id = pure (
      Outcome.refused 404 (
        format (
          "Invoice '"
          ∷ w.digest.str_uuid invoice_id
          ∷ "' not found for tenant '"
          ∷ w.digest.str_uuid tenant_id
          ∷ "'."
          ∷ [])))

abbrev pub listed_none : ℕ → ℕ → Action (Outcome (List (Unit {0}) × PaginationMeta))
listed_none page page_size = pure (
    if is_page page page_size
    then Outcome.answered 200 ([], empty_page page page_size)
    else Outcome.invalid)

-- Invoices and anomalies are listed as none.
unfoldable pub list_invoices : ℕ → ℕ → Action (Outcome (List (Unit {0}) × PaginationMeta))
list_invoices page page_size = listed_none page page_size

unfoldable pub list_anomalies : ℕ → ℕ → Action (Outcome (List (Unit {0}) × PaginationMeta))
list_anomalies page page_size = listed_none page page_size
