-- ===== src/Tasks/Billing/Sweeps.antt =====
-- What the loops over the tenants count.
use eu_saas.Prelude.{ℕ, ◌+◌, ◌-◌, ◌≡◌, refl, ap, List, [], ◌∷◌, length, arith, some}
use eu_saas.Domain.Values.{Date}
use eu_saas.Domain.Tenant.{Tenant, active}
use eu_saas.Domain.Errors.{Error}
use eu_saas.Adapters.Tenants as TenantRepo
use eu_saas.Container.{
  Container, World, Result, ok, err, ok_inj, and_then, Action, ◌>>=◌, pure, running,
}
use eu_saas.Services.Billing.{calculate_daily_costs, check_anomalies, generate_invoice}
use eu_saas.Services.Billing.Daily.{calculate_daily_costs-IsBilled}
use eu_saas.Services.Billing.Alarms.{check_anomalies-IsReported}
use eu_saas.Services.Billing.Invoicing.{generate_invoice-IsInvoiced}
use eu_saas.Tasks.{active_tenants}
use eu_saas.Tasks.Billing.{
  Tally, empty_tally, succeeded, attempt, for_each, cost_body, anomaly_body, invoice_body,
  daily_costs, anomaly_sweep, DailyCosts, AnomalySweep, aggregate_daily_costs, detect_anomalies,
}

-- A body that never raises.
abbrev pub IsSafe : (Tenant → Action ℕ) → Type 0
IsSafe body = (t : Tenant) (s : Container) → (n : ℕ) × ((body t s).0 ≡ ok n)

-- Every tenant is counted, and no exception.
pub record Counts (before : Tally) (tenants : List Tenant) (after : Tally) : Type 0 where
  pub processed : after.processed ≡ before.processed + length tenants
  pub errors : after.errors ≡ before.errors

err-ne-ok : (x : Error) (n : ℕ) → ¬ (err x ≡ ok n)
err-ne-ok x n e = cc

mapped :
    {A B : Type 0} (f : A → B) (r : Result A × Container) (a : A)
    → r.0 ≡ ok a
    → (and_then r (λ x. pure (f x))).0 ≡ ok (f a)
unfolding running
mapped f (ok x, t) a e = ap (λ y. ok (f y)) (ok_inj e)
mapped f (err x, t) a e = cc

-- An action that returns, and then gives a value of it.
pub then_value :
    {A B : Type 0} (m : Action A) (f : A → B) (s : Container) (a : A)
    → (m s).0 ≡ ok a
    → ((m >>= λ x. pure (f x)) s).0 ≡ ok (f a)
unfolding running
then_value m f s a returned = mapped f (m s) a returned

module _ (body : Tenant → Action ℕ) (safe : IsSafe body) where
  pub attempt-counts :
      (tally : Tally) (t : Tenant) (s : Container) (r : Result ℕ × Container) (n : ℕ)
      → body t s ≡ r
      → r.0 ≡ ok n
      → attempt body tally t s ≡ (ok (succeeded tally n), r.1)
  unfolding attempt running
  attempt-counts tally t s (ok m, u) n e good =
      rw e (ap (λ k. (ok (succeeded tally k), u)) (ok_inj good))
  attempt-counts tally t s (err x, u) n e good = absurd (err-ne-ok x n good)

  pub for_each-Counts :
      (tally : Tally) (tenants : List Tenant) (s : Container)
      → (after : Tally) × ((for_each body tally tenants s).0 ≡ ok after)
        × Counts tally tenants after
  unfolding for_each running
  for_each-Counts tally [] s = (tally, refl, record { processed = omega arith; errors = refl })
  for_each-Counts tally (t ∷ tenants) s =
      let (n, good) = safe t s in
      let e = attempt-counts tally t s (body t s) n refl good in
      let (after, returned, counts) = for_each-Counts (succeeded tally n) tenants (body t s).1 in
      (
        after,
        rw e returned,
        record { processed = omega (arith, counts.processed); errors = counts.errors },
      )

  pub for_each_all :
      (tenants : List Tenant) (s : Container)
      → (after : Tally) × ((for_each body empty_tally tenants s).0 ≡ ok after)
        × (after.processed ≡ length tenants)
        × (after.errors ≡ [])
  for_each_all tenants s =
      let (after, returned, counts) = for_each-Counts empty_tally tenants s in
      (after, returned, omega (arith, counts.processed), counts.errors)

-- The tenants that a task goes through: at most 10000 active ones.
abbrev pub listed : Container → List Tenant
listed s = (TenantRepo.list_tenants s.tenants 0 10000 (some active)).0

module _ (w : World) where
  cost_body-IsSafe : (date : Date) → IsSafe (cost_body w date)
  unfolding cost_body running
  cost_body-IsSafe date t s =
      let (records, returned, billed) = calculate_daily_costs-IsBilled w t.id date s in
      (0, then_value (calculate_daily_costs w t.id date) (λ _. 0) s records returned)

  anomaly_body-IsSafe : IsSafe (anomaly_body w)
  unfolding anomaly_body
  anomaly_body-IsSafe t s =
      let (anomalies, returned, reported) = check_anomalies-IsReported w t.id s in
      (length anomalies, then_value (check_anomalies w t.id) length s anomalies returned)

  pub invoice_body-IsSafe :
      (period_start period_end : Date) → IsSafe (invoice_body w period_start period_end)
  unfolding invoice_body
  invoice_body-IsSafe period_start period_end t s =
      let (invoice, returned, invoiced) =
        generate_invoice-IsInvoiced w t.id period_start period_end s in
      (0, then_value (generate_invoice w t.id period_start period_end) (λ _. 0) s invoice returned)

  pub aggregate_daily_costs-IsComplete :
      (s : Container)
      → (result : DailyCosts) × ((aggregate_daily_costs w s).0 ≡ ok result)
        × (result.date ≡ w.today s.calls - 1)
        × (result.tenants_processed ≡ length (listed s))
        × (result.errors ≡ [])
  unfolding aggregate_daily_costs active_tenants running
  aggregate_daily_costs-IsComplete s =
      let day = w.today s.calls - 1 in
      let next : Container = record s { calls = s.calls + 1 } in
      let (after, returned, processed, errors) =
        for_each_all (cost_body w day) (cost_body-IsSafe day) (listed s) next in
      (
        _,
        then_value (for_each (cost_body w day) empty_tally (listed s)) (daily_costs day) next after
            returned,
        refl,
        processed,
        errors,
      )

  pub detect_anomalies-IsComplete :
      (s : Container)
      → (result : AnomalySweep) × ((detect_anomalies w s).0 ≡ ok result)
        × (result.tenants_checked ≡ length (listed s))
  unfolding detect_anomalies active_tenants running
  detect_anomalies-IsComplete s =
      let (after, returned, processed, errors) =
        for_each_all (anomaly_body w) anomaly_body-IsSafe (listed s) s in
      (
        _,
        then_value (for_each (anomaly_body w) empty_tally (listed s)) anomaly_sweep s after
            returned,
        processed,
      )
