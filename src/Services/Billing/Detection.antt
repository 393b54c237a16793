-- ===== src/Services/Billing/Detection.antt =====
-- The anomaly check: the daily totals that it compares, and what it returns, stores and logs.
use eu_saas.Prelude.{
  ◌≡◌, refl, ◌∙◌, ◌&&◌, Bool-cases, inl, inr, if◌then◌else◌, Option, List, [], ◌∷◌, map, filter,
  Dict, lookup, insert, lookup-insert, ◌==◌, nat_eq,
}
use eu_saas.Prelude.Totals.{IsUnique, insert-IsUnique, joined, add_at}
use eu_saas.Domain.Values.{Date}
use eu_saas.Domain.Decimal.{Decimal}
use eu_saas.Domain.Decimal.Laws.{decimal_additive}
use eu_saas.Domain.Billing.{ResourceType, resource_eq, CostRecord}
use eu_saas.Services.Billing.{cost_of, or_empty, daily_totals}
use eu_saas.Services.Billing.Totals.{total_of, joined-none}

-- The costs of a resource type on a day.
abbrev pub costs_on : ResourceType → Date → List CostRecord → List Decimal
costs_on t d records = map cost_of (filter (λ r. (r.resource_type == t) && (r.date == d)) records)

abbrev total_at : ResourceType → Date → Dict ResourceType (Dict Date Decimal) → Option Decimal
total_at t d totals = lookup d (or_empty (lookup t totals))

amounts_step :
    (t : ResourceType) (d : Date) (totals : Dict ResourceType (Dict Date Decimal)) (r : CostRecord)
    (rest : List CostRecord)
    → joined
        (total_at t d (
          insert r.resource_type
            (add_at r.date r.total_cost (or_empty (lookup r.resource_type totals)))
            totals))
        (map cost_of rest)
      ≡ joined
          (total_at t d totals)
          (map cost_of (if (r.resource_type == t) && (r.date == d) then r ∷ rest else rest))
unfolding add_at
amounts_step t d totals r rest = elim (Bool-cases (r.resource_type == t)) [
  | inl same ↦
      let here = (resource_eq.equal_iff r.resource_type t).0 same in
      elim (Bool-cases (r.date == d)) [
        | inl today ↦
            rw
              (
                lookup-insert r.resource_type t,
                same,
                lookup-insert r.date d,
                today,
                here,
                (nat_eq.equal_iff r.date d).0 today,
              )
              refl
        | inr another ↦
            rw (lookup-insert r.resource_type t, same, lookup-insert r.date d, another, here) refl
      ]
  | inr other ↦ rw (lookup-insert r.resource_type t, other) refl
]

amounts_from :
    (t : ResourceType) (d : Date) (totals : Dict ResourceType (Dict Date Decimal))
    (records : List CostRecord)
    → total_at t d (daily_totals totals records)
      ≡ joined (total_at t d totals) (costs_on t d records)
unfolding daily_totals
amounts_from t d totals [] = refl
amounts_from t d totals (r ∷ records) =
    amounts_from t d
      (insert r.resource_type
        (add_at r.date r.total_cost (or_empty (lookup r.resource_type totals))) totals)
      records
    ∙ amounts_step t d totals r (filter (λ r. (r.resource_type == t) && (r.date == d)) records)

-- The totals by day are the sums of the costs of the resource type on the day.
pub daily_totals-amounts :
    (t : ResourceType) (d : Date) (records : List CostRecord)
    → lookup d (or_empty (lookup t (daily_totals [] records))) ≡ total_of (costs_on t d records)
unfolding lookup
daily_totals-amounts t d records = amounts_from t d [] records ∙ joined-none (costs_on t d records)

IsUnique-from :
    (totals : Dict ResourceType (Dict Date Decimal)) (records : List CostRecord)
    → IsUnique totals
    → IsUnique (daily_totals totals records)
unfolding daily_totals
IsUnique-from totals [] h = h
IsUnique-from totals (r ∷ records) h =
    IsUnique-from
      (insert r.resource_type
        (add_at r.date r.total_cost (or_empty (lookup r.resource_type totals))) totals)
      records (insert-IsUnique r.resource_type _ totals h)

pub daily_totals-IsUnique : (records : List CostRecord) → IsUnique (daily_totals [] records)
daily_totals-IsUnique records = IsUnique-from [] records tt
