-- ===== src/Tasks/Billing/Invoices.antt =====
-- The monthly run of invoices, over a calendar.
use eu_saas.Prelude.{
  ℕ, ◌+◌, ◌<◌, ◌≤◌, ◌≡◌, ◌≢◌, refl, sym, ap, ◌∙◌, [], ◌∷◌, List, some, lookup, lookup-insert_ne,
  nat_eq, All, length, arith,
}
use eu_saas.Domain.Values.{Date}
use eu_saas.Domain.Tenant.{Tenant}
use eu_saas.Domain.Decimal.{quantize}
use eu_saas.Domain.Billing.{Invoice}
use eu_saas.Adapters.Invoices.{save}
use eu_saas.Container.{pure, Container, World, Result, and_then, ok, err, running}
use eu_saas.Services.Registry.{AreDistinct}
use eu_saas.Services.Billing.{generate_invoice, month_start}
use eu_saas.Services.Billing.Totals.{total_between}
use eu_saas.Services.Billing.Invoicing.{generate_invoice-IsInvoiced}
use eu_saas.Tasks.{active_tenants}
use eu_saas.Tasks.Billing.{
  Tally, empty_tally, succeeded, for_each, invoice_body, monthly_invoices, MonthlyInvoices,
  generate_monthly_invoices, last_of_prev_month,
}
use eu_saas.Tasks.Billing.Sweeps.{
  attempt-counts, invoice_body-IsSafe, listed, for_each_all, then_value,
}

last_state : (r : Result Invoice × Container) → (and_then {B = ℕ} r (λ invoice. pure 0)).1 ≡ r.1
unfolding running
last_state (ok invoice, t) = refl
last_state (err e, t) = refl

module _ (w : World) (from until : Date) where
  -- A stored invoice of the tenant for the period, over what the tenant costs in it.
  pub record HasInvoice (s t : Container) (tenant : Tenant) : Type 0 where
    pub invoice : Invoice
    pub stored : lookup invoice.id t.invoices ≡ some invoice
    pub owner : invoice.tenant_id ≡ tenant.id
    pub start : invoice.period_start ≡ from
    pub end_ : invoice.period_end ≡ until
    pub amount : invoice.total_amount ≡ quantize 2 (total_between tenant.id from until s)

module _ (w : World) (distinct : AreDistinct w) (from until : Date) where
  -- Invoices that were stored before stay, and each tenant of the list has one.
  record AreInvoiced (tenants : List Tenant) (s t : Container) : Type 0 where
    kept : (n : ℕ) → n < s.calls → lookup (w.uuid4 n) t.invoices ≡ lookup (w.uuid4 n) s.invoices
    costs : t.costs ≡ s.costs
    each : All (HasInvoice w from until s t) tenants

  later_draw : (m n : ℕ) → n < m → w.uuid4 m ≢ w.uuid4 n
  later_draw m n before e = omega (arith, before, distinct m n e)

  after_body :
      (tenant : Tenant) (s : Container)
      → (invoice_body w from until tenant s).1 ≡ (generate_invoice w tenant.id from until s).1
  unfolding invoice_body running
  after_body tenant s = last_state (generate_invoice w tenant.id from until s)

  carried :
      (s u t : Container) (tenants : List Tenant)
      → u.costs ≡ s.costs
      → All (HasInvoice w from until u t) tenants
      → All (HasInvoice w from until s t) tenants
  carried s u t [] same all = tt
  carried s u t (tenant ∷ tenants) same (h, all) = (
    record {
      invoice = h.invoice;
      stored = h.stored;
      owner = h.owner;
      start = h.start;
      end_ = h.end_;
      amount = h.amount ∙ rw same refl;
    },
    carried s u t tenants same all,
  )

  step-AreInvoiced :
      (tenant : Tenant) (tenants : List Tenant) (s t : Container)
      → AreInvoiced tenants (generate_invoice w tenant.id from until s).1 t
      → AreInvoiced (tenant ∷ tenants) s t
  unfolding save
  step-AreInvoiced tenant tenants s t rest =
      let (invoice, returned, is) = generate_invoice-IsInvoiced w tenant.id from until s in
      let u = (generate_invoice w tenant.id from until s).1 in
      let here : lookup invoice.id t.invoices ≡ lookup invoice.id u.invoices =
        ap (λ k. lookup k t.invoices) is.drawn
        ∙ rest.kept s.calls is.later
        ∙ ap (λ k. lookup k u.invoices) (sym is.drawn) in
      record {
        kept = λ n before.
            rest.kept n (omega (arith, before, is.later))
            ∙ ap (λ i. lookup (w.uuid4 n) i) is.saved
            ∙ lookup-insert_ne invoice.id (w.uuid4 n) invoice s.invoices
                (λ e. later_draw s.calls n before (sym is.drawn ∙ e));
        costs = rest.costs ∙ is.costs;
        each = (
          record {
            invoice = invoice;
            stored = here ∙ is.stored;
            owner = is.owner;
            start = is.from;
            end_ = is.until;
            amount = is.amount;
          },
          carried s u t tenants is.costs rest.each,
        );
      }

  for_each-AreInvoiced :
      (tally : Tally) (tenants : List Tenant) (s : Container)
      → AreInvoiced tenants s (for_each (invoice_body w from until) tally tenants s).1
  unfolding for_each running
  for_each-AreInvoiced tally [] s = record { kept = λ n before. refl; costs = refl; each = tt }
  for_each-AreInvoiced tally (tenant ∷ tenants) s =
      let body = invoice_body w from until in
      let (n, good) = invoice_body-IsSafe w from until tenant s in
      let e =
        attempt-counts body (invoice_body-IsSafe w from until) tally tenant s (body tenant s) n refl
          good in
      rw (e, after_body tenant s)
        (step-AreInvoiced tenant tenants s _ (
          for_each-AreInvoiced (succeeded tally n) tenants
            (generate_invoice w tenant.id from until s).1))

-- What the run leaves: the tenants that it lists, a report that names a period and counts them all,
-- and an invoice of each for that period.
pub record IsComplete (w : World) (s t : Container) (result : MonthlyInvoices) : Type 0 where
  pub ends : result.period_end + w.calendar.day (w.today s.calls) ≡ w.today s.calls
  pub starts : result.period_start + w.calendar.day result.period_end ≡ result.period_end + 1
  pub generated : result.invoices_generated ≡ length (listed s)
  pub errors : result.errors ≡ []
  pub each : All (HasInvoice w result.period_start result.period_end s t) (listed s)

last_container :
    {A B : Type 0} (f : A → B) (r : Result A × Container) → (and_then r (λ a. pure (f a))).1 ≡ r.1
unfolding running
last_container f (ok a, t) = refl
last_container f (err e, t) = refl

-- If uuid4 never repeats, the day of a month counts from 1, and no month starts before the epoch: a
-- monthly run that does not start in the month of the epoch ends with a report without errors on the
-- month before, from its first day to its last, and each ACTIVE tenant, up to 10000 of them, then
-- has a stored invoice for this month over its costs in it.
pub generate_monthly_invoices-IsComplete :
    (w : World) (s : Container)
    → AreDistinct w
    → ((d : Date) → 1 ≤ w.calendar.day d)
    → ((d : Date) → w.calendar.day d ≤ d + 1)
    → w.calendar.day (w.today s.calls) ≤ w.today s.calls
    → (result : MonthlyInvoices) × ((generate_monthly_invoices w s).0 ≡ ok result)
      × IsComplete w s (generate_monthly_invoices w s).1 result
unfolding generate_monthly_invoices active_tenants running
generate_monthly_invoices-IsComplete w s distinct counts starts_late after_first =
    let today = w.today s.calls in
    let until = last_of_prev_month w today in
    let from = month_start w until in
    let next : Container = record s { calls = s.calls + 1 } in
    let (after, returned, processed, errors) =
      for_each_all (invoice_body w from until) (invoice_body-IsSafe w from until) (listed s) next in
    let loop = for_each (invoice_body w from until) empty_tally (listed s) in
    let all = for_each-AreInvoiced w distinct from until empty_tally (listed s) next in
    (
      monthly_invoices from until after,
      then_value loop (monthly_invoices from until) next after returned,
      record {
        ends = omega (arith, counts today, after_first);
        starts = omega (arith, counts until, starts_late until);
        generated = processed;
        errors = errors;
        each =
            rw (last_container (monthly_invoices from until) (loop next))
              (carried w distinct from until s next _ (listed s) refl all.each);
      },
    )
