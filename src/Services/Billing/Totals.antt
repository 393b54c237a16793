-- ===== src/Services/Billing/Totals.antt =====
-- Costs by resource type and by period.
use eu_saas.Prelude.{
  ◌≤◌, ◌+◌, ◌≡◌, refl, ap, sym, ◌∙◌, Bool, true, false, ◌||◌, Bool-cases, inl, inr, Option, none,
  some, List, [], ◌∷◌, map, filter, lookup, values, ◌==◌, nat_eq, string_eq, arith,
}
use eu_saas.Prelude.Totals.{
  sum, sum_from, sum_from_start, joined, joined-some, gathered, lookup-totals_from, sum-totals_from,
}
use eu_saas.Domain.Values.{Uuid, Date}
use eu_saas.Domain.Decimal.{zero_decimal, Decimal, plus}
use eu_saas.Domain.Decimal.Laws.{plus_right_comm, plus_assoc, plus_zero, decimal_additive}
use eu_saas.Domain.Billing.{
  cpu, memory, storage, network, api_calls, ResourceType, resource_value, resource_eq, CostRecord,
}
use eu_saas.Adapters.Costs.{is_within, get_by_tenant_and_range}
use eu_saas.Container.{Container, ok, running}
use eu_saas.Services.Billing.{CostBreakdown, cost_of, costed, get_cost_breakdown, costs_between}

-- The sum of the amounts, if there are any.
abbrev pub total_of : List Decimal → Option Decimal
total_of [] = none
total_of (a ∷ amounts) = some (sum (a ∷ amounts))

pub joined-none : (amounts : List Decimal) → joined none amounts ≡ total_of amounts
unfolding sum_from
joined-none [] = refl
joined-none (a ∷ amounts) = joined-some _ amounts

abbrev IsTold : ResourceType → ResourceType → Type 0
IsTold a b = (resource_value a == resource_value b) ≡ (a == b)

-- The values of the enumeration are different texts.
value_eq : (a b : ResourceType) → IsTold a b
value_eq cpu b = elim b as (λ k. IsTold cpu k) [
  | cpu ↦ refl
  | memory ↦ refl
  | storage ↦ refl
  | network ↦ refl
  | api_calls ↦ refl
]
value_eq memory b = elim b as (λ k. IsTold memory k) [
  | cpu ↦ refl
  | memory ↦ refl
  | storage ↦ refl
  | network ↦ refl
  | api_calls ↦ refl
]
value_eq storage b = elim b as (λ k. IsTold storage k) [
  | cpu ↦ refl
  | memory ↦ refl
  | storage ↦ refl
  | network ↦ refl
  | api_calls ↦ refl
]
value_eq network b = elim b as (λ k. IsTold network k) [
  | cpu ↦ refl
  | memory ↦ refl
  | storage ↦ refl
  | network ↦ refl
  | api_calls ↦ refl
]
value_eq api_calls b = elim b as (λ k. IsTold api_calls k) [
  | cpu ↦ refl
  | memory ↦ refl
  | storage ↦ refl
  | network ↦ refl
  | api_calls ↦ refl
]

-- The costs of a resource type.
abbrev pub costs_of : ResourceType → List CostRecord → List Decimal
costs_of t records = map cost_of (filter (λ r. r.resource_type == t) records)

gathered-costed :
    (t : ResourceType) (records : List CostRecord)
    → gathered (resource_value t) (map costed records) ≡ costs_of t records
gathered-costed t [] = refl
gathered-costed t (r ∷ records) = elim (Bool-cases (r.resource_type == t)) [
  | inl same ↦ rw (value_eq, same) (ap (λ rest. r.total_cost ∷ rest) (gathered-costed t records))
  | inr other ↦ rw (value_eq, other) (gathered-costed t records)
]

values-costed : (records : List CostRecord) → values (map costed records) ≡ map cost_of records
values-costed [] = refl
values-costed (r ∷ records) = ap (λ rest. r.total_cost ∷ rest) (values-costed records)

abbrev pub records_between : Uuid → Date → Date → Container → List CostRecord
records_between tenant_id start_date end_date s =
    get_by_tenant_and_range s.costs tenant_id start_date end_date

-- A breakdown that accounts for the records.
pub record Accounts (records : List CostRecord) (b : CostBreakdown) : Type 0 where
  pub total : b.total ≡ sum (map cost_of records)
  pub parts : sum (values b.by_resource) ≡ b.total
  pub part :
      (t : ResourceType) → lookup (resource_value t) b.by_resource ≡ total_of (costs_of t records)

pub get_cost_breakdown-Accounts :
    (tenant_id : Uuid) (start_date end_date : Date) (s : Container)
    → (b : CostBreakdown) × (get_cost_breakdown tenant_id start_date end_date s ≡ (ok b, s))
      × Accounts (records_between tenant_id start_date end_date s) b
unfolding get_cost_breakdown costs_between running sum_from lookup
get_cost_breakdown-Accounts tenant_id start_date end_date s =
    let records = records_between tenant_id start_date end_date s in
    (
      _,
      refl,
      record {
        total = refl;
        parts = sum-totals_from [] (map costed records) ∙ ap sum (values-costed records);
        part = λ t.
            lookup-totals_from (resource_value t) [] (map costed records)
            ∙ ap (joined none) (gathered-costed t records)
            ∙ joined-none (costs_of t records);
      },
    )

sum_cons : (a : Decimal) (xs : List Decimal) → sum (a ∷ xs) ≡ plus (sum xs) a
unfolding sum_from
sum_cons a xs = ap (λ c. sum_from c xs) (decimal_additive.add_nothing a) ∙ sum_from_start a xs

sum_nothing : sum [] ≡ plus (sum []) (sum [])
unfolding sum_from
sum_nothing = sym (plus_zero zero_decimal)

-- A sum over two tests that exclude each other.
sum-filter-split :
    (p q r : CostRecord → Bool) (records : List CostRecord)
    → ((c : CostRecord) → r c ≡ (p c || q c))
    → ((c : CostRecord) → p c ≡ true → q c ≡ false)
    → sum (map cost_of (filter r records))
      ≡ plus (sum (map cost_of (filter p records))) (sum (map cost_of (filter q records)))
sum-filter-split p q r [] either apart = sum_nothing
sum-filter-split p q r (c ∷ records) either apart =
    let rest = sum-filter-split p q r records either apart in
    elim (Bool-cases (p c)) [
      | inl first ↦
          rw
            (
              either c,
              first,
              apart c first,
              sum_cons c.total_cost (map cost_of (filter r records)),
              sum_cons c.total_cost (map cost_of (filter p records)),
              rest,
            )
            (plus_right_comm _ _ _)
      | inr neither ↦ elim (Bool-cases (q c)) [
        | inl second ↦
            rw
              (
                either c,
                neither,
                second,
                sum_cons c.total_cost (map cost_of (filter r records)),
                sum_cons c.total_cost (map cost_of (filter q records)),
                rest,
              )
              (plus_assoc _ _ _)
        | inr third ↦ rw (either c, neither, third) rest
      ]
    ]

-- The total of a period.
abbrev pub total_between : Uuid → Date → Date → Container → Decimal
total_between tenant_id start_date end_date s =
    sum (map cost_of (records_between tenant_id start_date end_date s))

pub total_between-split :
    (tenant_id : Uuid) (start_date middle end_date : Date) (s : Container)
    → start_date ≤ middle
    → middle ≤ end_date
    → total_between tenant_id start_date end_date s
      ≡ plus
          (total_between tenant_id start_date middle s)
          (total_between tenant_id (middle + 1) end_date s)
unfolding get_by_tenant_and_range
total_between-split tenant_id start_date middle end_date s before after =
    sum-filter-split (is_within tenant_id start_date middle)
      (is_within tenant_id (middle + 1) end_date) (is_within tenant_id start_date end_date) s.costs
      (λ c. ground arith) (λ c h. ground arith)
