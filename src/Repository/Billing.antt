-- ===== src/Repository/Billing.antt =====
-- BillingRepository. Amounts are as they are given: the columns keep six and four decimal places.
use eu_saas.Prelude.{
  ℕ, String, Bool, true, false, Option, none, some, List, ◌&&◌, filter, leb, ◌==◌, string_eq,
  nat_eq, nat_beq,
}
use eu_saas.Domain.Values.{Uuid, Time, Date, Attributes}
use eu_saas.Domain.Decimal.{Decimal}
use eu_saas.Repository.Sql.{Row, order_by_desc, page, insert_row}

pub data InvoiceStatus : Type 0 where
  draft issued paid overdue cancelled : InvoiceStatus

abbrev position : InvoiceStatus → ℕ
position draft = 0
position issued = 1
position paid = 2
position overdue = 3
position cancelled = 4

pub record UsageRecordModel : Type 0 where
  pub id : Uuid
  pub tenant_id : Uuid
  pub user_id : Option Uuid
  pub resource_type : String
  pub quantity : Decimal
  pub unit : String
  pub metadata_json : Option Attributes
  pub recorded_at : Time

pub record CostRecordModel : Type 0 where
  pub id : Uuid
  pub tenant_id : Uuid
  pub resource_type : String
  pub amount : Decimal
  pub currency : String
  pub period_start : Date
  pub period_end : Date
  pub invoice_id : Option Uuid
  pub metadata_json : Option Attributes
  pub created_at : Time

pub record InvoiceModel : Type 0 where
  pub id : Uuid
  pub tenant_id : Uuid
  pub invoice_number : String
  pub status : InvoiceStatus
  pub total_amount : Decimal
  pub currency : String
  pub period_start : Date
  pub period_end : Date
  pub issued_at : Option Time
  pub paid_at : Option Time
  pub metadata_json : Option Attributes
  pub created_at : Time
  pub updated_at : Time

instance abbrev pub usage_row : Row UsageRecordModel
usage_row = record { id_of = λ r. r.id; clash = λ r q. false }

instance abbrev pub cost_row : Row CostRecordModel
cost_row = record { id_of = λ r. r.id; clash = λ r q. false }

-- `uq_invoices_invoice_number`
instance abbrev pub invoice_row : Row InvoiceModel
invoice_row = record { id_of = λ i. i.id; clash = λ i j. j.invoice_number == i.invoice_number }

-- `if bound is not None: stmt = stmt.where(…)`
abbrev pub optional : {A : Type 0} → Option A → (A → Bool) → Bool
optional none test = true
optional (some bound) test = test bound

unfoldable pub record_usage :
    Uuid
    → Time
    → (tenant_id : Uuid) (resource_type : String) → Decimal
    → (unit : String) → Option Uuid
    → Option Attributes
    → List UsageRecordModel
    → Option (List UsageRecordModel)
record_usage id now tenant_id resource_type quantity unit user_id metadata_json rows =
    insert_row
      (record {
        id = id;
        tenant_id = tenant_id;
        user_id = user_id;
        resource_type = resource_type;
        quantity = quantity;
        unit = unit;
        metadata_json = metadata_json;
        recorded_at = now;
      })
      rows

unfoldable pub get_usage_by_tenant :
    List UsageRecordModel
    → (tenant_id : Uuid) (start until : Option Time) → Option String
    → (offset limit : ℕ) → List UsageRecordModel
get_usage_by_tenant rows tenant_id start until resource_type offset limit = page offset limit (
    order_by_desc (λ r. r.recorded_at)
      (filter
        (λ r.
          (r.tenant_id == tenant_id)
          && optional start (λ t. leb t r.recorded_at)
          && optional until (λ t. leb r.recorded_at t)
          && optional resource_type (λ t. r.resource_type == t))
        rows))

unfoldable pub create_cost_record :
    Uuid
    → Time
    → (tenant_id : Uuid) (resource_type : String) → Decimal
    → (currency : String) (period_start period_end : Date) → Option Uuid
    → Option Attributes
    → List CostRecordModel
    → Option (List CostRecordModel)
create_cost_record id now tenant_id resource_type amount currency period_start period_end invoice_id
      metadata_json rows =
    insert_row
      (record {
        id = id;
        tenant_id = tenant_id;
        resource_type = resource_type;
        amount = amount;
        currency = currency;
        period_start = period_start;
        period_end = period_end;
        invoice_id = invoice_id;
        metadata_json = metadata_json;
        created_at = now;
      })
      rows

unfoldable pub get_cost_records :
    List CostRecordModel
    → (tenant_id : Uuid) (period_start period_end : Option Date) → (offset limit : ℕ)
    → List CostRecordModel
get_cost_records rows tenant_id period_start period_end offset limit = page offset limit (
    order_by_desc (λ r. r.created_at)
      (filter
        (λ r.
          (r.tenant_id == tenant_id)
          && optional period_start (λ d. leb d r.period_start)
          && optional period_end (λ d. leb r.period_end d))
        rows))

unfoldable pub create_invoice :
    Uuid
    → Time
    → (tenant_id : Uuid) (invoice_number : String) → Decimal
    → (currency : String) (period_start period_end : Date) → InvoiceStatus
    → Option Attributes
    → List InvoiceModel
    → Option (List InvoiceModel)
create_invoice id now tenant_id invoice_number total_amount currency period_start period_end status
      metadata_json rows =
    insert_row
      (record {
        id = id;
        tenant_id = tenant_id;
        invoice_number = invoice_number;
        status = status;
        total_amount = total_amount;
        currency = currency;
        period_start = period_start;
        period_end = period_end;
        issued_at = none;
        paid_at = none;
        metadata_json = metadata_json;
        created_at = now;
        updated_at = now;
      })
      rows

unfoldable pub get_invoices :
    List InvoiceModel
    → (tenant_id : Uuid) → Option InvoiceStatus
    → (offset limit : ℕ) → List InvoiceModel
get_invoices rows tenant_id wanted offset limit = page offset limit (
    order_by_desc (λ i. i.created_at)
      (filter
        (λ i.
          (i.tenant_id == tenant_id)
          && optional wanted (λ s. nat_beq (position i.status) (position s)))
        rows))
