-- ===== src/Services/CostCalculator/Prices.antt =====
-- The rounding of a price.
use eu_saas.Prelude.{◌^◌, ◌<◌, Option, Dict, lookup}
use eu_saas.Domain.Decimal.{quantize, Decimal, times}
use eu_saas.Domain.Decimal.Rounding.{IsNear, quantize-IsNear}
use eu_saas.Domain.Billing.{ResourceType, resource_eq}
use eu_saas.Services.CostCalculator.{or_zero, or_default, calculate_cost}

-- The price per unit.
abbrev pub unit_price : ResourceType → Option (Dict ResourceType Decimal) → Decimal
unit_price t custom_pricing = or_zero (lookup t (or_default custom_pricing))

-- A number that Python's context holds: at most 28 digits.
abbrev pub IsHeld : Decimal → Type 0
IsHeld a = a.digits < 10 ^ 28

-- If the product of quantity and price has at most 28 digits, and so has its rounding to six places,
-- the cost has six places, and is at most half a millionth away from that product.
pub calculate_cost-IsNear :
    (t : ResourceType) (quantity : Decimal) (custom_pricing : Option (Dict ResourceType Decimal))
    → IsHeld (times quantity (unit_price t custom_pricing))
    → IsHeld (quantize 6 (times quantity (unit_price t custom_pricing)))
    → IsNear 6
        (times quantity (unit_price t custom_pricing))
        (calculate_cost t quantity custom_pricing)
unfolding calculate_cost
calculate_cost-IsNear t quantity custom_pricing exact rounded =
    quantize-IsNear 6 (times quantity (unit_price t custom_pricing))
