-- ===== src/Services/Billing/Repeats.antt =====
-- What a second run for the same day does to the totals.
use eu_saas.Prelude.{
  inr, inl, Bool-cases, ℕ, ◌≡◌, refl, ap, ◌∙◌, Bool, true, leb, List, [], ◌∷◌, ◌++◌, map, filter,
  ==_refl, nat_eq, All, arith,
}
use eu_saas.Prelude.Totals.{sum, sum_from_start, sum_from-append}
use eu_saas.Domain.Values.{Uuid, Date}
use eu_saas.Domain.Decimal.{Decimal, plus}
use eu_saas.Domain.Decimal.Laws.{decimal_additive, plus_comm}
use eu_saas.Domain.Billing.{CostRecord}
use eu_saas.Adapters.Costs.{is_within, get_by_tenant_and_range}
use eu_saas.Container.{Container, World}
use eu_saas.Services.Billing.{cost_of, calculate_daily_costs}
use eu_saas.Services.Billing.Totals.{total_between}
use eu_saas.Services.Billing.Daily.{
  IsPriced, bill, calculate_daily_costs-runs, bill-IsPriced, cost_of-bill,
}

leb_refl : (n : ℕ) → leb n n ≡ true
leb_refl n = ground arith

filter-append :
    (p : CostRecord → Bool) (xs ys : List CostRecord)
    → filter p (xs ++ ys) ≡ filter p xs ++ filter p ys
filter-append p [] ys = refl
filter-append p (x ∷ xs) ys = elim (Bool-cases (p x)) [
  | inl kept ↦ rw (kept, filter-append p xs ys) refl
  | inr dropped ↦ rw (dropped, filter-append p xs ys) refl
]

map-append : (xs ys : List CostRecord) → map cost_of (xs ++ ys) ≡ map cost_of xs ++ map cost_of ys
map-append [] ys = refl
map-append (x ∷ xs) ys = ap (λ rest. cost_of x ∷ rest) (map-append xs ys)

module _ (w : World) (id : Uuid) (day : Date) where
  filter-priced :
      (records : List CostRecord)
      → All (IsPriced w id day) records
      → filter (is_within id day day) records ≡ records
  filter-priced [] h = refl
  filter-priced (c ∷ records) (priced, h) =
      rw (priced.owned, priced.dated, ==_refl id, leb_refl day, filter-priced records h) refl

  total_between-costs :
      (s t : Container) (records : List CostRecord)
      → t.costs ≡ s.costs ++ records
      → All (IsPriced w id day) records
      → total_between id day day t ≡ plus (total_between id day day s) (sum (map cost_of records))
  unfolding get_by_tenant_and_range
  total_between-costs s t records e h =
      rw (e, filter-append, filter-priced records h, map-append)
        (sum_from-append _ (map cost_of (filter (is_within id day day) s.costs))
            (map cost_of records)
          ∙ sum_from_start _ (map cost_of records)
          ∙ plus_comm _ _)

  pub calculate_daily_costs_twice :
      (s : Container)
      → let t = (calculate_daily_costs w id day s).1 in
        let u = (calculate_daily_costs w id day t).1 in
        (amount : Decimal) × (total_between id day day t ≡ plus (total_between id day day s) amount)
        × (total_between id day day u ≡ plus (plus (total_between id day day s) amount) amount)
  calculate_daily_costs_twice s =
      let t = (calculate_daily_costs w id day s).1 in
      let first = ap (λ r. r.1) (calculate_daily_costs-runs w id day s) in
      let second = ap (λ r. r.1) (calculate_daily_costs-runs w id day t) in
      let one =
        total_between-costs s t (bill w id day s) (ap (λ u. u.costs) first)
          (bill-IsPriced w id day s) in
      (
        sum (map cost_of (bill w id day s)),
        one,
        total_between-costs t (calculate_daily_costs w id day t).1 (bill w id day t)
              (ap (λ u. u.costs) second) (bill-IsPriced w id day t)
            ∙ ap (λ a. plus (total_between id day day t) (sum a))
                (cost_of-bill w id day s t (ap (λ u. u.usage) first))
            ∙ ap (λ a. plus a (sum (map cost_of (bill w id day s)))) one,
      )
