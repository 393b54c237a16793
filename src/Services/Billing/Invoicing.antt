-- ===== src/Services/Billing/Invoicing.antt =====
-- Invoices and projections, beside the breakdown of the same period.
use eu_saas.Prelude.{
  ◌<◌, arith, ◌≡◌, refl, [], ◌∷◌, ◌++◌, some, lookup, lookup-insert_self, nat_eq, string_eq,
  length-map, length,
}
use eu_saas.Domain.Values.{Uuid, Date, text}
use eu_saas.Domain.Decimal.{quantize}
use eu_saas.Domain.Billing.{Invoice}
use eu_saas.Domain.Audit.{AuditEntry, audit_entry}
use eu_saas.Adapters.AuditEntries
use eu_saas.Adapters.Costs.{get_by_tenant_and_range}
use eu_saas.Adapters.Invoices as InvoiceRepo
use eu_saas.Container.{Container, World, ok, running}
use eu_saas.Services.Auditing.{create_audit_entry}
use eu_saas.Services.Billing.{
  CostProjection, costs_between, generate_invoice, project_monthly_cost, month_start,
}
use eu_saas.Services.Billing.Totals.{total_between}

module _ (w : World) (tenant_id : Uuid) where
  -- A draft for a period: a line for each cost record, the total of the breakdown rounded to cents,
  -- and one audit entry with the invoice's id.
  pub record IsInvoiced (period_start period_end : Date) (s : Container) (invoice : Invoice)
      (t : Container) : Type 0 where
    pub owner : invoice.tenant_id ≡ tenant_id
    pub from : invoice.period_start ≡ period_start
    pub until : invoice.period_end ≡ period_end
    pub draft : invoice.status ≡ "DRAFT"
    pub amount :
        invoice.total_amount ≡ quantize 2 (total_between tenant_id period_start period_end s)
    pub lines :
        length invoice.line_items
        ≡ length (get_by_tenant_and_range s.costs tenant_id period_start period_end)
    pub stored : lookup invoice.id t.invoices ≡ some invoice
    pub saved : t.invoices ≡ InvoiceRepo.save invoice s.invoices
    pub drawn : invoice.id ≡ w.uuid4 s.calls
    pub later : s.calls < t.calls
    pub entry : AuditEntry
    pub logged : t.audit ≡ s.audit ++ entry ∷ []
    pub about : entry.tenant_id ≡ tenant_id
    pub names : lookup "invoice_id" entry.details ≡ some (text (w.digest.str_uuid invoice.id))
    pub costs : t.costs ≡ s.costs
    pub tenants : t.tenants ≡ s.tenants

  pub generate_invoice-IsInvoiced :
      (period_start period_end : Date) (s : Container)
      → (invoice : Invoice) × ((generate_invoice w tenant_id period_start period_end s).0
          ≡ ok invoice)
        × IsInvoiced period_start period_end s invoice
            (generate_invoice w tenant_id period_start period_end s).1
  unfolding generate_invoice costs_between create_audit_entry running InvoiceRepo.save
      AuditEntries.save audit_entry lookup
  generate_invoice-IsInvoiced period_start period_end s = (
    _,
    refl,
    record {
      owner = refl;
      from = refl;
      until = refl;
      draft = refl;
      amount = refl;
      lines = length-map _ _;
      stored = lookup-insert_self _ _ s.invoices;
      saved = refl;
      drawn = refl;
      later = omega arith;
      entry = _;
      logged = refl;
      about = refl;
      names = refl;
      costs = refl;
      tenants = refl;
    },
  )

  -- The projection of a month: what was spent up to today, and the same for every day of the month.
  pub record IsProjected (s : Container) (p : CostProjection) : Type 0 where
    pub elapsed : p.days_elapsed ≡ w.calendar.day (w.today s.calls)
    pub spent :
        p.actual_cost
        ≡ quantize 2 (total_between tenant_id (month_start w (w.today s.calls)) (w.today s.calls) s)

  pub project_monthly_cost-IsProjected :
      (s : Container)
      → (p : CostProjection) × ((project_monthly_cost w tenant_id s).0 ≡ ok p) × IsProjected s p
  unfolding project_monthly_cost costs_between running
  project_monthly_cost-IsProjected s = (_, refl, record { elapsed = refl; spent = refl })
