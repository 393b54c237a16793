-- ===== src/Domain/Decimal.antt =====
-- `decimal.Decimal`, for the numbers that are not negative. Sums and products are exact, as they
-- are in Python while they have at most 28 digits; `quantize` rounds half to even.
pub mod Laws
pub mod Rounding
use eu_saas.Prelude.{
  ℕ, ◌+◌, ◌-◌, ◌*◌, ◌/◌, ◌%◌, ◌^◌, Bool, leb, ltb, ◌==◌, nat_eq, if◌then◌else◌, List, [], ◌∷◌,
}

-- The number `digits / 10 ^ places`.
pub record Decimal : Type 0 where
  pub digits : ℕ
  pub places : ℕ

-- `Decimal("0")`
abbrev pub zero_decimal : Decimal
zero_decimal = record { digits = 0; places = 0 }

abbrev pub larger : ℕ → ℕ → ℕ
larger a b = if leb a b then b else a

-- The digits with that many zeros behind them.
abbrev pub shift : ℕ → ℕ → ℕ
shift k digits = digits * 10 ^ k

unfoldable pub plus : Decimal → Decimal → Decimal
plus a b =
    let places = larger a.places b.places in
    record {
      digits = shift (places - a.places) a.digits + shift (places - b.places) b.digits;
      places = places;
    }

unfoldable pub times : Decimal → Decimal → Decimal
times a b = record { digits = a.digits * b.digits; places = a.places + b.places }

-- The nearest multiple of `unit`, over `unit`: the even one of two that are equally near.
unfoldable pub round_half_even : ℕ → ℕ → ℕ
round_half_even unit digits =
    let quotient = digits / unit in
    let remainder = digits % unit in
    if ltb (2 * remainder) unit
    then quotient
    else if ltb unit (2 * remainder)
    then quotient + 1
    else quotient + quotient % 2

-- `a.quantize(Decimal(1).scaleb(-places))`
unfoldable pub quantize : ℕ → Decimal → Decimal
quantize places a =
    if leb a.places places
    then record { digits = shift (places - a.places) a.digits; places = places }
    else record { digits = round_half_even (10 ^ (a.places - places)) a.digits; places = places }
