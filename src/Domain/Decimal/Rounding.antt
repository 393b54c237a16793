-- ===== src/Domain/Decimal/Rounding.antt =====
-- How far `quantize` moves a number.
use native.Mathlib.Nat.{mul-le-mul_right, one-le-pow}
use eu_saas.Prelude.{
  ℕ, ◌+◌, ◌-◌, ◌*◌, ◌^◌, ◌≤◌, ◌≡◌, refl, ap, ◌∙◌, leb, Bool-cases, inl, inr, arith,
}
use eu_saas.Domain.Decimal.{Decimal, shift, quantize, round_half_even}
use eu_saas.Domain.Decimal.Laws.{shift-shift, round_half_even-near}

-- Rounded to `n` places, at most half a unit of the last one away: both numbers are brought to the
-- same denominator, and doubled.
pub record IsNear (n : ℕ) (a b : Decimal) : Type 0 where
  pub exact : b.places ≡ n
  pub above : 2 * shift a.places b.digits ≤ 2 * shift n a.digits + shift a.places 1
  pub below : 2 * shift n a.digits ≤ 2 * shift a.places b.digits + shift a.places 1

-- A shift that comes back to where a coarser one goes.
shift-back : (p q d : ℕ) → p ≤ q → shift p (shift (q - p) d) ≡ shift q d
shift-back p q d h = shift-shift (q - p) p d ∙ ap (λ n. shift n d) (omega (arith, h))

scaled :
    (p q n d : ℕ)
    → p ≤ q
    → 2 * (n * 10 ^ (q - p)) ≤ 2 * d + 10 ^ (q - p)
    → 2 * d ≤ 2 * (n * 10 ^ (q - p)) + 10 ^ (q - p)
    → (2 * shift q n ≤ 2 * shift p d + shift q 1) × (2 * shift p d ≤ 2 * shift q n + shift q 1)
scaled p q n d h up down =
    let back = shift-back p q n h in
    let unit = shift-back p q 1 h in
    let up' = mul-le-mul_right (10 ^ p) up in
    let down' = mul-le-mul_right (10 ^ p) down in
    (grind (arith, back, unit, up'), grind (arith, back, unit, down'))

-- A quantized number has the places that were asked for, and is at most half a unit away.
pub quantize-IsNear : (n : ℕ) (a : Decimal) → IsNear n a (quantize n a)
unfolding quantize
quantize-IsNear n a = elim (Bool-cases (leb a.places n)) [
  | inl fine ↦
      let back : shift a.places (shift (n - a.places) a.digits) ≡ shift n a.digits =
        shift-back a.places n a.digits (ground arith) in
      rw fine
        (record { exact = refl; above = rw back (omega arith); below = rw back (omega arith) })
  | inr coarse ↦
      let unit = 10 ^ (a.places - n) in
      let (up, down) =
        round_half_even-near unit a.digits (one-le-pow (a.places - n) 10 (omega arith)) in
      let (above, below) =
        scaled n a.places (round_half_even unit a.digits) a.digits (ground arith) up down in
      rw coarse (record { exact = refl; above = above; below = below })
]
