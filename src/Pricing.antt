-- ===== src/Pricing.antt =====
-- src/infrastructure/cost/pricing_engine.py. A float is its 64-bit pattern, and its arithmetic is
-- the parameter `FloatOps`.
pub mod Laws
pub mod Detector
use eu_saas.Prelude.{
  ℕ, ◌≡◌, ◌↔◌, String, Bool, true, false, Option, none, some, List, [], ◌∷◌, map, arith, nat_beq,
  Comparable, ltb, Dict, lookup, insert, if◌then◌else◌,
}
use eu_saas.Domain.Decimal.{Decimal}
use eu_saas.Domain.Billing.{Float}

pub record FloatOps : Type 0 where
  -- a literal, and a whole number as a float
  pub literal : Decimal → Float
  pub of_int : ℕ → Float
  pub infinity : Float
  pub add : Float → Float → Float
  pub sub : Float → Float → Float
  pub mul : Float → Float → Float
  pub div : Float → Float → Float
  pub abs : Float → Float
  pub sqrt : Float → Float
  pub less : Float → Float → Bool
  -- `round(x, n)`
  pub round : ℕ → Float → Float

pub data ResourceType : Type 0 where
  cpu memory storage network api_calls : ResourceType

abbrev pub resource_value : ResourceType → String
resource_value cpu = "cpu"
resource_value memory = "memory"
resource_value storage = "storage"
resource_value network = "network"
resource_value api_calls = "api_calls"

abbrev position : ResourceType → ℕ
position cpu = 0
position memory = 1
position storage = 2
position network = 3
position api_calls = 4

abbrev resource_beq : ResourceType → ResourceType → Bool
resource_beq a b = nat_beq (position a) (position b)

pub resource_beq_iff : (a b : ResourceType) → (resource_beq a b ≡ true) ↔ (a ≡ b)
resource_beq_iff a b = ground arith

instance abbrev pub resource_eq : Comparable ResourceType
resource_eq = record { equal = resource_beq; equal_iff = resource_beq_iff }

pub record LineItem : Type 0 where
  pub resource_type : ResourceType
  pub quantity : Float
  pub unit_price : Float
  pub total : Float

pub record UsageRecord : Type 0 where
  pub resource_type : ResourceType
  pub quantity : Float

pub record PeriodCost : Type 0 where
  pub line_items : List LineItem
  pub total : Float
  pub currency : String

pub record ProjectedCost : Type 0 where
  pub current_total : Float
  pub projected_total : Float
  pub days_elapsed : ℕ
  pub days_in_month : ℕ
  pub currency : String

abbrev pub Prices : Type 0
Prices = Dict ResourceType Float

-- `prices.update(overrides)`
unfoldable pub updated : Prices → Prices → Prices
updated prices [] = prices
updated prices ((t, price) ∷ overrides) = updated (insert t price prices) overrides

-- `if overrides: prices.update(overrides)`
abbrev pub with_overrides : Prices → Option Prices → Prices
with_overrides prices none = prices
with_overrides prices (some overrides) = updated prices overrides

-- What the two checks of the projection raise.
pub data Projection : Type 0 where
  projected : ProjectedCost → Projection
  value_error : String → Projection

module _ (f : FloatOps) where
  abbrev price : ℕ → ℕ → Float
  price digits places = f.literal (record { digits = digits; places = places })

  abbrev pub default_pricing : Prices
  default_pricing =
      (cpu, f.literal (record { digits = 2; places = 2 }))
      ∷ (memory, f.literal (record { digits = 5; places = 3 }))
      ∷ (storage, f.literal (record { digits = 1; places = 2 }))
      ∷ (network, f.literal (record { digits = 1; places = 3 }))
      ∷ (api_calls, f.literal (record { digits = 1; places = 4 }))
      ∷ []

  -- `PricingEngine(pricing)`, of which the prices are the only attribute.
  unfoldable pub pricing_engine : Option Prices → Prices
  pricing_engine pricing = with_overrides default_pricing pricing

  abbrev pub line : ResourceType → Float → Float → LineItem
  line t quantity unit_price = record {
    resource_type = t;
    quantity = quantity;
    unit_price = unit_price;
    total = f.round 6 (f.mul quantity unit_price);
  }

  -- `custom_price if custom_price is not None else …`
  abbrev or_else : Option Float → Option Float → Option Float
  or_else none listed = listed
  or_else (some custom_price) listed = some custom_price

  abbrev priced : ResourceType → Float → Option Float → Option LineItem
  priced t quantity none = none
  priced t quantity (some unit_price) = some (line t quantity unit_price)

  -- `none` is a `KeyError`.
  unfoldable pub calculate_line_item :
      Prices → ResourceType → Float → Option Float → Option LineItem
  calculate_line_item prices t quantity custom_price =
      priced t quantity (or_else custom_price (lookup t prices))

  -- `prices.get(t, 0.0)`
  abbrev pub or_free : Option Float → Float
  or_free none = f.literal (record { digits = 0; places = 1 })
  or_free (some unit_price) = unit_price

  abbrev pub item : Prices → UsageRecord → LineItem
  item prices r = line r.resource_type r.quantity (or_free (lookup r.resource_type prices))

  -- `sum(item.total for item in line_items)`
  abbrev pub total_from : Float → List LineItem → Float
  total_from start [] = start
  total_from start (i ∷ items) = total_from (f.add start i.total) items

  unfoldable pub calculate_period_cost : Prices → List UsageRecord → Option Prices → PeriodCost
  calculate_period_cost prices usage_records pricing =
      let line_items = map (item (with_overrides prices pricing)) usage_records in
      record {
        line_items = line_items;
        total = f.round 6 (total_from (f.of_int 0) line_items);
        currency = "EUR";
      }

  unfoldable pub project_monthly_cost : Prices → List UsageRecord → ℕ → ℕ → Projection
  unfolding calculate_period_cost
  project_monthly_cost prices current_usage days_elapsed days_in_month =
      if nat_beq days_elapsed 0
      then value_error "days_elapsed must be positive"
      else if nat_beq days_in_month 0
      then value_error "days_in_month must be positive"
      else let period = calculate_period_cost prices current_usage none in
        projected (record {
          current_total = period.total;
          projected_total =
              f.round 6
                (f.mul period.total (f.div (f.of_int days_in_month) (f.of_int days_elapsed)));
          days_elapsed = days_elapsed;
          days_in_month = days_in_month;
          currency = "EUR";
        })
