-- ===== src/Services/CostCalculator.antt =====
-- src/domain/services/cost_calculator.py
pub mod Prices
use eu_saas.Prelude.{
  ℕ, Bool, true, false, Option, none, some, List, [], ◌∷◌, Dict, lookup, length, ltb, if◌then◌else◌,
}
use eu_saas.Domain.Decimal.{Decimal, zero_decimal, times, quantize}
use eu_saas.Domain.Billing.{
  ResourceType, cpu, memory, storage, network, api_calls, resource_eq, Float, Floats, CostAnomaly,
}
use eu_saas.Container.{World, Action, ◌>>=◌, pure, call}

abbrev pub default_pricing : Dict ResourceType Decimal
default_pricing =
    (cpu, record { digits = 2; places = 2 })
    ∷ (memory, record { digits = 5; places = 3 })
    ∷ (storage, record { digits = 1; places = 2 })
    ∷ (network, record { digits = 1; places = 3 })
    ∷ (api_calls, record { digits = 1; places = 4 })
    ∷ []

-- `d.get(k, Decimal("0"))`
abbrev pub or_zero : Option Decimal → Decimal
or_zero none = zero_decimal
or_zero (some price) = price

abbrev pub or_default : Option (Dict ResourceType Decimal) → Dict ResourceType Decimal
or_default none = default_pricing
or_default (some pricing) = pricing

unfoldable pub calculate_cost :
    ResourceType → Decimal → Option (Dict ResourceType Decimal) → Decimal
calculate_cost resource_type quantity custom_pricing =
    quantize 6 (times quantity (or_zero (lookup resource_type (or_default custom_pricing))))

-- `threshold: float = 2.5`
abbrev pub default_threshold : Decimal
default_threshold = record { digits = 25; places = 1 }

module _ (w : World) where
  -- `None` if there is no deviation from values that are all the same.
  unfoldable pub deviation : Float → List Float → Option Float
  deviation current_value historical_values =
      let mean = w.floats.mean historical_values in
      let stdev = w.floats.stdev historical_values in
      if w.floats.equals stdev (w.floats.float zero_decimal)
      then (if w.floats.equals current_value mean then none else some w.floats.infinity)
      else some (w.floats.quotient (w.floats.distance current_value mean) stdev)

  -- The anomaly, of the tenant and the resource type that the dataclass gives it at first.
  unfoldable pub found : Float → List Float → Float → Action (Option CostAnomaly)
  found current_value historical_values deviation_factor = do
    id ← call w.uuid4
    detected_at ← call w.now
    tenant_id ← call w.uuid4
    pure (
        some (record {
          id = id;
          tenant_id = tenant_id;
          resource_type = cpu;
          expected_value = w.floats.rounded (w.floats.mean historical_values);
          actual_value = w.floats.rounded current_value;
          deviation_factor = w.floats.rounded deviation_factor;
          detected_at = detected_at;
          acknowledged = false;
        }))

  unfoldable pub flagged : Float → List Float → Option Float → Action (Option CostAnomaly)
  flagged current_value historical_values none = pure none
  flagged current_value historical_values (some deviation_factor) =
      if w.floats.at_least deviation_factor (w.floats.float default_threshold)
      then found current_value historical_values deviation_factor
      else pure none

  unfoldable pub detect_anomaly : Float → List Float → Action (Option CostAnomaly)
  detect_anomaly current_value historical_values =
      if ltb (length historical_values) 2
      then pure none
      else flagged current_value historical_values (deviation current_value historical_values)
