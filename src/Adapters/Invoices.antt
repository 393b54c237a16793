-- ===== src/Adapters/Invoices.antt =====
-- `InMemoryInvoiceRepository`
use eu_saas.Prelude.{Option, ◌&&◌, find, ◌==◌, nat_eq, Dict, insert, values}
use eu_saas.Domain.Values.{Uuid, Date}
use eu_saas.Domain.Billing.{Invoice}

abbrev pub InvoiceRepo : Type 0
InvoiceRepo = Dict Uuid Invoice

unfoldable pub save : Invoice → InvoiceRepo → InvoiceRepo
save invoice invoices = insert invoice.id invoice invoices

unfoldable pub get_by_tenant_and_period : InvoiceRepo → Uuid → Date → Date → Option Invoice
get_by_tenant_and_period invoices tenant_id period_start period_end =
    find
      (λ i.
        (i.tenant_id == tenant_id)
        && (i.period_start == period_start)
        && (i.period_end == period_end))
      (values invoices)
