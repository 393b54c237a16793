-- ===== src/Services/Billing/Daily.antt =====
-- The daily costs.
use native.Mathlib.Nat.{add-zero}
use eu_saas.Prelude.{
  append-nil, ℕ, suc, ◌+◌, ◌≡◌, refl, ap, ◌∙◌, Bool-cases, inl, inr, none, List, [], ◌∷◌, ◌++◌, map,
  filter, length, Dict, lookup, ◌==◌, All, arith,
}
use eu_saas.Prelude.Totals.{joined, IsUnique, totals_from-IsUnique, gathered, lookup-totals_from}
use eu_saas.Domain.Values.{Uuid, Date}
use eu_saas.Domain.Decimal.{Decimal}
use eu_saas.Domain.Decimal.Laws.{decimal_additive}
use eu_saas.Domain.Billing.{ResourceType, resource_eq, CostRecord, UsageRecord}
use eu_saas.Adapters.Usage.{get_by_tenant_and_date}
use eu_saas.Adapters.Costs.{save_many}
use eu_saas.Container.{modify, when, Container, World, ok, running, ◌>>◌, pure, modify, when}
use eu_saas.Services.CostCalculator.{calculate_cost}
use eu_saas.Services.Billing.{
  cost_of, is_filled, save_costs, is_filled, used, aggregated, priced, price_all,
  calculate_daily_costs,
}
use eu_saas.Services.Billing.Totals.{total_of, joined-none}

abbrev pub quantity_of : UsageRecord → Decimal
quantity_of r = r.quantity

-- The quantities that are used of a resource type.
abbrev pub used_of : ResourceType → List UsageRecord → List Decimal
used_of t records = map quantity_of (filter (λ r. r.resource_type == t) records)

gathered-used :
    (t : ResourceType) (records : List UsageRecord)
    → gathered t (map used records) ≡ used_of t records
gathered-used t [] = refl
gathered-used t (r ∷ records) = elim (Bool-cases (r.resource_type == t)) [
  | inl same ↦ rw same (ap (λ rest. r.quantity ∷ rest) (gathered-used t records))
  | inr other ↦ rw other (gathered-used t records)
]

quantities-aggregated :
    (k : ResourceType) (records : List UsageRecord)
    → lookup k (aggregated records) ≡ total_of (used_of k records)
unfolding aggregated lookup
quantities-aggregated k records =
    lookup-totals_from k [] (map used records)
    ∙ ap (joined none) (gathered-used k records)
    ∙ joined-none (used_of k records)

aggregated-IsUnique : (records : List UsageRecord) → IsUnique (aggregated records)
unfolding aggregated
aggregated-IsUnique records = totals_from-IsUnique [] (map used records) tt

-- What is billed of a resource type.
abbrev pub billed : CostRecord → ResourceType × Decimal
billed c = (c.resource_type, c.quantity)

module _ (w : World) (tenant_id : Uuid) (target_date : Date) where
  -- The records that `price_all` makes from the call `n` on.
  priced_from : ℕ → Dict ResourceType Decimal → List CostRecord
  priced_from n [] = []
  priced_from n ((t, q) ∷ totals) =
      priced w (w.uuid4 n) tenant_id target_date t q ∷ priced_from (n + 1) totals

  price_all-runs :
      (totals : Dict ResourceType Decimal) (s : Container)
      → price_all w tenant_id target_date totals s
        ≡ (ok (priced_from s.calls totals), record s { calls = s.calls + length totals })
  unfolding price_all priced_from running
  price_all-runs [] s = rw (add-zero s.calls) refl
  price_all-runs ((t, q) ∷ totals) s =
      rw (price_all-runs totals (record s { calls = s.calls + 1 })) (
        ap (λ n. (ok (priced_from s.calls ((t, q) ∷ totals)), record s { calls = n }))
          (omega arith))

  billed-priced_from :
      (n : ℕ) (totals : Dict ResourceType Decimal) → map billed (priced_from n totals) ≡ totals
  unfolding priced_from
  billed-priced_from n [] = refl
  billed-priced_from n ((t, q) ∷ totals) =
      ap (λ rest. (t, q) ∷ rest) (billed-priced_from (n + 1) totals)

  length-priced_from :
      (n : ℕ) (totals : Dict ResourceType Decimal) → length (priced_from n totals) ≡ length totals
  unfolding priced_from
  length-priced_from n [] = refl
  length-priced_from n ((t, q) ∷ totals) = ap suc (length-priced_from (n + 1) totals)

  -- A cost record of the tenant and the day, at the price of its quantity.
  pub record IsPriced (c : CostRecord) : Type 0 where
    pub owned : c.tenant_id ≡ tenant_id
    pub dated : c.date ≡ target_date
    pub costs : c.total_cost ≡ calculate_cost c.resource_type c.quantity none

  priced_from-IsPriced :
      (n : ℕ) (totals : Dict ResourceType Decimal) → All IsPriced (priced_from n totals)
  unfolding priced_from
  priced_from-IsPriced n [] = tt
  priced_from-IsPriced n ((t, q) ∷ totals) =
      (record { owned = refl; dated = refl; costs = refl }, priced_from-IsPriced (n + 1) totals)

  -- The bill of a day: for each resource type the sum of what was used of it, priced and appended.
  pub record IsBilled (s : Container) (records : List CostRecord) (t : Container) : Type 0 where
    pub quantities :
        (k : ResourceType)
        → lookup k (map billed records)
          ≡ total_of (used_of k (get_by_tenant_and_date s.usage tenant_id target_date))
    pub prices : All IsPriced records
    pub single : IsUnique (map billed records)
    pub stored : t ≡ record s { costs = s.costs ++ records; calls = s.calls + length records }

  stored_all :
      (s : Container) (records : List CostRecord)
      → (when (is_filled records) (modify (save_costs records)) >> pure records) s
        ≡ (ok records, record s { costs = s.costs ++ records })
  unfolding running save_many
  stored_all s [] = rw (append-nil s.costs) refl
  stored_all s (c ∷ records) = refl

  -- The records that a run on a container makes.
  pub bill : Container → List CostRecord
  bill s = priced_from s.calls (aggregated (get_by_tenant_and_date s.usage tenant_id target_date))

  billed-bill :
      (s : Container)
      → map billed (bill s) ≡ aggregated (get_by_tenant_and_date s.usage tenant_id target_date)
  unfolding bill
  billed-bill s = billed-priced_from _ _

  pub bill-IsPriced : (s : Container) → All IsPriced (bill s)
  unfolding bill
  bill-IsPriced s = priced_from-IsPriced _ _

  cost_of-priced_from :
      (n m : ℕ) (totals : Dict ResourceType Decimal)
      → map cost_of (priced_from n totals) ≡ map cost_of (priced_from m totals)
  unfolding priced_from
  cost_of-priced_from n m [] = refl
  cost_of-priced_from n m ((t, q) ∷ totals) =
      ap (λ rest. calculate_cost t q none ∷ rest) (cost_of-priced_from (n + 1) (m + 1) totals)

  -- The costs depend on the usage only.
  pub cost_of-bill :
      (s t : Container) → t.usage ≡ s.usage → map cost_of (bill t) ≡ map cost_of (bill s)
  unfolding bill
  cost_of-bill s t same = rw same (cost_of-priced_from t.calls s.calls _)

  pub calculate_daily_costs-runs :
      (s : Container)
      → calculate_daily_costs w tenant_id target_date s
        ≡ (ok (bill s), record s { costs = s.costs ++ bill s; calls = s.calls + length (bill s) })
  unfolding calculate_daily_costs running bill
  calculate_daily_costs-runs s =
      let totals = aggregated (get_by_tenant_and_date s.usage tenant_id target_date) in
      rw (price_all-runs totals s, length-priced_from s.calls totals)
        (stored_all (record s { calls = s.calls + length totals }) (priced_from s.calls totals))

  pub calculate_daily_costs-IsBilled :
      (s : Container)
      → (records : List CostRecord) × ((calculate_daily_costs w tenant_id target_date s).0
          ≡ ok records)
        × IsBilled s records (calculate_daily_costs w tenant_id target_date s).1
  calculate_daily_costs-IsBilled s = (
    bill s,
    ap (λ r. r.0) (calculate_daily_costs-runs s),
    record {
      quantities = λ k.
          rw (billed-bill s)
            (quantities-aggregated k (get_by_tenant_and_date s.usage tenant_id target_date));
      prices = bill-IsPriced s;
      single = rw (billed-bill s) (aggregated-IsUnique _);
      stored = ap (λ r. r.1) (calculate_daily_costs-runs s);
    },
  )
