-- ===== src/Services/Billing.antt =====
-- src/application/services/billing_service.py. A date before the epoch is cut off at the epoch.
pub mod Effects
pub mod Totals
pub mod Daily
pub mod Repeats
pub mod Invoicing
pub mod Detection
pub mod Alarms
use eu_saas.Prelude.{
  ◌++◌, ℕ, ◌+◌, ◌-◌, String, Bool, true, false, not, Option, none, some, List, [], ◌∷◌, map, length,
  ltb, leb, filter, Dict, lookup, insert, values, ◌==◌, nat_eq, string_eq, if◌then◌else◌,
}
use eu_saas.Prelude.Totals.{sum, totals_from, add_at}
use eu_saas.Text.{format}
use eu_saas.Domain.Values.{Uuid, Time, Date, Attributes, text, int, texts}
use eu_saas.Domain.Decimal.{Decimal, zero_decimal, times, quantize}
use eu_saas.Domain.Decimal.Laws.{decimal_additive}
use eu_saas.Domain.Audit.{tenant_updated, cost_anomaly_detected}
use eu_saas.Domain.Billing.{
  ResourceType, resource_value, resource_eq, UsageRecord, CostRecord, Invoice, CostAnomaly, Float,
}
use eu_saas.Adapters.Usage as UsageRepo
use eu_saas.Adapters.Costs as CostRepo
use eu_saas.Adapters.Invoices as InvoiceRepo
use eu_saas.Adapters.Anomalies as AnomalyRepo
use eu_saas.Container.{Container, World, Action, ◌>>=◌, ◌>>◌, pure, gets, call, modify, when}
use eu_saas.Services.Auditing.{create_audit_entry}
use eu_saas.Services.Tenants.{nobody}
use eu_saas.Services.CostCalculator.{calculate_cost, detect_anomaly}

pub record CostBreakdown : Type 0 where
  pub tenant_id : Uuid
  pub start_date : Date
  pub end_date : Date
  pub by_resource : Dict String Decimal
  pub total : Decimal
  pub currency : String

pub record CostProjection : Type 0 where
  pub tenant_id : Uuid
  pub month : ℕ
  pub year : ℕ
  pub days_elapsed : ℕ
  pub days_in_month : ℕ
  pub actual_cost : Decimal
  pub projected_cost : Decimal
  pub currency : String

abbrev pub save_usage : UsageRecord → Container → Container
save_usage r s = record s { usage = UsageRepo.save r s.usage }

abbrev pub save_costs : List CostRecord → Container → Container
save_costs new s = record s { costs = CostRepo.save_many new s.costs }

abbrev pub save_invoice : Invoice → Container → Container
save_invoice invoice s = record s { invoices = InvoiceRepo.save invoice s.invoices }

abbrev pub save_anomalies : List CostAnomaly → Container → Container
save_anomalies new s = record s { anomalies = AnomalyRepo.save_many new s.anomalies }

-- `bool(xs)`
abbrev pub is_filled : {A : Type 0} → List A → Bool
is_filled [] = false
is_filled (x ∷ xs) = true

abbrev pub used : UsageRecord → ResourceType × Decimal
used r = (r.resource_type, r.quantity)

-- The quantities per resource type, in the order in which the types are first used.
unfoldable pub aggregated : List UsageRecord → Dict ResourceType Decimal
aggregated records = totals_from [] (map used records)

abbrev pub costed : CostRecord → String × Decimal
costed r = (resource_value r.resource_type, r.total_cost)

abbrev pub cost_of : CostRecord → Decimal
cost_of r = r.total_cost

-- The records that `get_by_tenant_and_range` gives.
unfoldable pub costs_between : Uuid → Date → Date → Action (List CostRecord)
costs_between tenant_id start_date end_date =
    gets (λ s. CostRepo.get_by_tenant_and_range s.costs tenant_id start_date end_date)

pub get_cost_breakdown : Uuid → Date → Date → Action CostBreakdown
get_cost_breakdown tenant_id start_date end_date = do
  records ← costs_between tenant_id start_date end_date
  pure (record {
    tenant_id = tenant_id;
    start_date = start_date;
    end_date = end_date;
    by_resource = totals_from [] (map costed records);
    total = sum (map cost_of records);
    currency = "EUR";
  })

-- `sorted(dates)`
abbrev insert_date : Date → List Date → List Date
insert_date d [] = d ∷ []
insert_date d (c ∷ dates) =
    let rest = insert_date d dates in if leb d c then d ∷ c ∷ dates else c ∷ rest

unfoldable pub sorted : List Date → List Date
sorted [] = []
sorted (d ∷ dates) = insert_date d (sorted dates)

abbrev pub or_empty : Option (Dict Date Decimal) → Dict Date Decimal
or_empty none = []
or_empty (some date_map) = date_map

-- The totals per resource type and day.
unfoldable pub daily_totals :
    Dict ResourceType (Dict Date Decimal) → List CostRecord → Dict ResourceType (Dict Date Decimal)
daily_totals d [] = d
daily_totals d (r ∷ records) =
    daily_totals
      (insert r.resource_type (add_at r.date r.total_cost (or_empty (lookup r.resource_type d))) d)
      records

abbrev pub or_zero : Option Decimal → Decimal
or_zero none = zero_decimal
or_zero (some amount) = amount

module _ (w : World) where
  pub record_usage : Uuid → ResourceType → Decimal → String → Action UsageRecord
  record_usage tenant_id resource_type quantity unit = do
    id ← call w.uuid4
    recorded_at ← call w.now
    let r : UsageRecord = record {
      id = id;
      tenant_id = tenant_id;
      resource_type = resource_type;
      quantity = quantity;
      unit = unit;
      recorded_at = recorded_at;
    }
    modify (save_usage r)
    pure r

  abbrev pub priced : Uuid → Uuid → Date → ResourceType → Decimal → CostRecord
  priced id tenant_id target_date resource_type total_quantity = record {
    id = id;
    tenant_id = tenant_id;
    date = target_date;
    resource_type = resource_type;
    quantity = total_quantity;
    unit_price = calculate_cost resource_type (record { digits = 1; places = 0 }) none;
    total_cost = calculate_cost resource_type total_quantity none;
    currency = "EUR";
  }

  pub price_all : Uuid → Date → Dict ResourceType Decimal → Action (List CostRecord)
  price_all tenant_id target_date [] = pure []
  price_all tenant_id target_date ((resource_type, total_quantity) ∷ rest) = do
    id ← call w.uuid4
    records ← price_all tenant_id target_date rest
    pure (priced id tenant_id target_date resource_type total_quantity ∷ records)

  pub calculate_daily_costs : Uuid → Date → Action (List CostRecord)
  calculate_daily_costs tenant_id target_date = do
    usage_records ← gets (λ s. UsageRepo.get_by_tenant_and_date s.usage tenant_id target_date)
    cost_records ← price_all tenant_id target_date (aggregated usage_records)
    when (is_filled cost_records) (modify (save_costs cost_records))
    pure cost_records

  -- `today.replace(day=1)`
  abbrev pub month_start : Date → Date
  month_start today = today - (w.calendar.day today - 1)

  pub project_monthly_cost : Uuid → Action CostProjection
  project_monthly_cost tenant_id = do
    today ← call w.today
    let days_in_month = w.calendar.days_in_month today
    let days_elapsed = w.calendar.day today
    records ← costs_between tenant_id (month_start today) today
    let actual = sum (map cost_of records)
    let projected =
        if ltb 0 days_elapsed
        then times (w.divide actual days_elapsed) (record { digits = days_in_month; places = 0 })
        else zero_decimal
    pure (record {
      tenant_id = tenant_id;
      month = w.calendar.month today;
      year = w.calendar.year today;
      days_elapsed = days_elapsed;
      days_in_month = days_in_month;
      actual_cost = quantize 2 actual;
      projected_cost = quantize 2 projected;
      currency = "EUR";
    })

  abbrev pub line_item : CostRecord → Attributes
  line_item r =
      ("resource_type", text (resource_value r.resource_type))
      ∷ ("date", text (w.iso_date r.date))
      ∷ ("quantity", text (w.str_decimal r.quantity))
      ∷ ("unit_price", text (w.str_decimal r.unit_price))
      ∷ ("total_cost", text (w.str_decimal r.total_cost))
      ∷ ("currency", text r.currency)
      ∷ []

  pub generate_invoice : Uuid → Date → Date → Action Invoice
  generate_invoice tenant_id period_start period_end = do
    records ← costs_between tenant_id period_start period_end
    id ← call w.uuid4
    generated_at ← call w.now
    let invoice : Invoice = record {
      id = id;
      tenant_id = tenant_id;
      period_start = period_start;
      period_end = period_end;
      line_items = map line_item records;
      total_amount = quantize 2 (sum (map cost_of records));
      currency = "EUR";
      status = "DRAFT";
      generated_at = generated_at;
    }
    modify (save_invoice invoice)
    create_audit_entry w tenant_id tenant_updated nobody (
        ("event", text "invoice_generated")
        ∷ ("invoice_id", text (w.digest.str_uuid id))
        ∷ ("total_amount", text (w.str_decimal invoice.total_amount))
        ∷ ("period", text (format (w.iso_date period_start ∷ " - " ∷ w.iso_date period_end ∷ [])))
        ∷ [])
    pure invoice

  -- The history: the days before today in order, each as a float.
  unfoldable pub historical : Date → Dict Date Decimal → List Float
  historical today date_map =
      map (λ d. w.floats.float (or_zero (lookup d date_map)))
        (filter (λ d. not (d == today)) (sorted (map (λ e. e.0) date_map)))

  abbrev pub current : Date → Dict Date Decimal → Float
  current today date_map = w.floats.float (or_zero (lookup today date_map))

  -- What the detector says of one resource type, if two days are known and one is not today.
  unfoldable pub examine : Date → Dict Date Decimal → Action (Option CostAnomaly)
  examine today date_map =
      if ltb (length date_map) 2
      then pure none
      else if is_filled (historical today date_map)
      then detect_anomaly w (current today date_map) (historical today date_map)
      else pure none

  abbrev pub with_owner : Uuid → ResourceType → Option CostAnomaly → List CostAnomaly
  with_owner tenant_id resource_type none = []
  with_owner tenant_id resource_type (some anomaly) =
      record anomaly { tenant_id = tenant_id; resource_type = resource_type } ∷ []

  unfoldable pub examine_all :
      Uuid → Date → Dict ResourceType (Dict Date Decimal) → Action (List CostAnomaly)
  examine_all tenant_id today [] = pure []
  examine_all tenant_id today ((resource_type, date_map) ∷ rest) = do
    anomaly ← examine today date_map
    others ← examine_all tenant_id today rest
    pure (with_owner tenant_id resource_type anomaly ++ others)

  unfoldable pub report : Uuid → List CostAnomaly → Action (Unit {0})
  report tenant_id anomalies = do
    modify (save_anomalies anomalies)
    create_audit_entry w tenant_id cost_anomaly_detected nobody (
        ("anomaly_count", int (length anomalies))
        ∷ ("resource_types", texts (map (λ a. resource_value a.resource_type) anomalies))
        ∷ [])
    pure tt

  unfoldable pub check_anomalies : Uuid → Action (List CostAnomaly)
  check_anomalies tenant_id = do
    today ← call w.today
    cost_records ← costs_between tenant_id (today - 7) today
    new_anomalies ← examine_all tenant_id today (daily_totals [] cost_records)
    when (is_filled new_anomalies) (report tenant_id new_anomalies)
    pure new_anomalies
