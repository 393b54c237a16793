-- ===== src/Pricing/Laws.antt =====
-- The prices of an engine, and its lines.
use eu_saas.Prelude.{
  sym, ◌≡◌, refl, ap, sym, Bool-cases, inl, inr, Option, none, some, List, [], ◌∷◌, map, lookup,
  insert, lookup-insert, ◌==◌, if◌then◌else◌,
}
use eu_saas.Domain.Billing.{Float}
use eu_saas.Pricing.{
  item, FloatOps, ResourceType, cpu, memory, storage, network, api_calls, resource_eq, LineItem,
  UsageRecord, Prices, updated, with_overrides, default_pricing, pricing_engine, line, item,
  calculate_line_item, calculate_period_cost,
}

-- Every resource type has a price.
pub record IsPriced (prices : Prices) : Type 0 where
  pub price : ResourceType → Float
  pub priced : (t : ResourceType) → lookup t prices ≡ some (price t)

insert-IsPriced :
    (t : ResourceType) (x : Float) (prices : Prices)
    → IsPriced prices
    → IsPriced (insert t x prices)
insert-IsPriced t x prices h = record {
  price = λ k. if t == k then x else h.price k;
  priced = λ k. elim (Bool-cases (t == k)) [
    | inl same ↦ rw (lookup-insert t k, same) refl
    | inr other ↦ rw (lookup-insert t k, other) (h.priced k)
  ];
}

updated-IsPriced :
    (prices overrides : Prices) → IsPriced prices → IsPriced (updated prices overrides)
unfolding updated
updated-IsPriced prices [] h = h
updated-IsPriced prices ((t, x) ∷ overrides) h =
    updated-IsPriced (insert t x prices) overrides (insert-IsPriced t x prices h)

with_overrides-IsPriced :
    (prices : Prices) (pricing : Option Prices)
    → IsPriced prices
    → IsPriced (with_overrides prices pricing)
with_overrides-IsPriced prices none h = h
with_overrides-IsPriced prices (some overrides) h = updated-IsPriced prices overrides h

module _ (f : FloatOps) where
  default_price : ResourceType → Float
  default_price cpu = f.literal (record { digits = 2; places = 2 })
  default_price memory = f.literal (record { digits = 5; places = 3 })
  default_price storage = f.literal (record { digits = 1; places = 2 })
  default_price network = f.literal (record { digits = 1; places = 3 })
  default_price api_calls = f.literal (record { digits = 1; places = 4 })

  default_priced : (t : ResourceType) → lookup t (default_pricing f) ≡ some (default_price t)
  unfolding lookup default_price
  default_priced cpu = refl
  default_priced memory = refl
  default_priced storage = refl
  default_priced network = refl
  default_priced api_calls = refl

  pub pricing_engine-IsPriced : (pricing : Option Prices) → IsPriced (pricing_engine f pricing)
  unfolding pricing_engine
  pricing_engine-IsPriced pricing =
      with_overrides-IsPriced (default_pricing f) pricing
        (record { price = default_price; priced = default_priced })

  -- The line of a usage record.
  abbrev pub line_of : Prices → UsageRecord → Option LineItem
  line_of prices r = calculate_line_item f prices r.resource_type r.quantity none

  lines_agree :
      (prices : Prices)
      → IsPriced prices
      → (usage : List UsageRecord)
      → map (line_of prices) usage ≡ map some (map (item f prices) usage)
  unfolding calculate_line_item
  lines_agree prices h [] = refl
  lines_agree prices h (r ∷ usage) = rw (h.priced r.resource_type) (
      ap (λ rest. some (line f r.resource_type r.quantity (h.price r.resource_type)) ∷ rest)
        (lines_agree prices h usage))

  -- Whatever prices are overridden, an engine has a price for every resource type, and the lines of
  -- a period are those that calculate_line_item gives for its usage records, in order.
  pub calculate_period_cost-calculate_line_item :
      (pricing : Option Prices) (usage : List UsageRecord)
      → map some (calculate_period_cost f (pricing_engine f pricing) usage none).line_items
        ≡ map (line_of (pricing_engine f pricing)) usage
  unfolding calculate_period_cost
  calculate_period_cost-calculate_line_item pricing usage =
      sym (lines_agree (pricing_engine f pricing) (pricing_engine-IsPriced pricing) usage)
