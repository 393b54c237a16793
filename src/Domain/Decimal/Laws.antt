-- ===== src/Domain/Decimal/Laws.antt =====
-- Sums of decimals, and how far rounding goes.
use native.Mathlib.Nat.{
  add-suc, add-zero, mul-one, mul_assoc, add-mul, pow-suc, pow-zero, div-add-mod', mod-lt,
}
use eu_saas.Prelude.{
  ltb→lt, if◌then◌else◌, ◌<◌, ℕ, zero, suc, ◌+◌, ◌-◌, ◌*◌, ◌/◌, ◌%◌, ◌^◌, ◌≤◌, ◌≡◌, refl, ap, sym,
  ◌∙◌, arith, ltb, Bool-cases, inl, inr,
}
use eu_saas.Prelude.Totals.{Additive}
use eu_saas.Domain.Decimal.{Decimal, zero_decimal, larger, shift, plus, round_half_even}

pub shift-shift : (j k d : ℕ) → shift k (shift j d) ≡ shift (j + k) d
shift-shift j zero d =
    rw (pow-zero 10, mul-one (d * 10 ^ j)) (ap (λ n. shift n d) (sym (add-zero j)))
shift-shift j (suc k) d =
    let folded : d * 10 ^ j * (10 ^ k * 10) ≡ d * (10 ^ (j + k) * 10) =
      rw (sym (mul_assoc (d * 10 ^ j) (10 ^ k) 10), shift-shift j k d)
        (mul_assoc d (10 ^ (j + k)) 10) in
    rw (pow-suc 10 k, add-suc j k, pow-suc 10 (j + k)) folded

shift_add : (k c d : ℕ) → shift k (c + d) ≡ shift k c + shift k d
shift_add k c d = add-mul c d (10 ^ k)

decimal_ext : (a b : Decimal) → a.digits ≡ b.digits → a.places ≡ b.places → a ≡ b
decimal_ext a b same same' = cc

larger_assoc : (a b c : ℕ) → larger (larger a b) c ≡ larger a (larger b c)
larger_assoc a b c = ground arith

-- Two shifts in a row, to the same place.
shift-through : (p q r d : ℕ) → p ≤ q → q ≤ r → shift (r - q) (shift (q - p) d) ≡ shift (r - p) d
shift-through p q r d h k =
    shift-shift (q - p) (r - q) d ∙ ap (λ n. shift n d) (omega (arith, h, k))

shift-sum :
    (p q m n c d : ℕ)
    → p ≤ m
    → q ≤ m
    → m ≤ n
    → shift (n - m) (shift (m - p) c + shift (m - q) d) ≡ shift (n - p) c + shift (n - q) d
shift-sum p q m n c d hp hq hm =
    rw
      (
        shift_add (n - m) (shift (m - p) c) (shift (m - q) d),
        shift-through p m n c hp hm,
        shift-through q m n d hq hm,
      )
      refl

pub plus_zero : (a : Decimal) → plus zero_decimal a ≡ a
unfolding plus
plus_zero a =
    let top : larger 0 a.places ≡ a.places = ground arith in
    let still : a.places - a.places ≡ 0 = omega arith in
    decimal_ext _ _ (rw (top, still, pow-zero 10) (omega arith)) top

pub plus_comm : (a b : Decimal) → plus a b ≡ plus b a
unfolding plus
plus_comm a b =
    let same : larger a.places b.places ≡ larger b.places a.places = ground arith in
    decimal_ext _ _ (rw same (omega arith)) same

pub plus_assoc : (a b c : Decimal) → plus (plus a b) c ≡ plus a (plus b c)
unfolding plus
plus_assoc a b c =
    let p = a.places in
    let q = b.places in
    let r = c.places in
    let top = larger_assoc p q r in
    decimal_ext _ _
      (rw
        (
          shift-sum p q (larger p q) (larger (larger p q) r) a.digits b.digits (ground arith)
              (ground arith) (ground arith),
          shift-sum q r (larger q r) (larger p (larger q r)) b.digits c.digits (ground arith)
              (ground arith) (ground arith),
          top,
        )
        (omega arith))
      top

pub plus_right_comm : (a b c : Decimal) → plus (plus a b) c ≡ plus (plus a c) b
plus_right_comm a b c = rw (plus_assoc, plus_comm b c) (sym (plus_assoc a c b))

instance abbrev pub decimal_additive : Additive Decimal
decimal_additive = record {
  nothing = zero_decimal;
  add = plus;
  add_nothing = plus_zero;
  add_comm = plus_comm;
  add_assoc = plus_assoc;
}

half_way :
    (q r b unit digits : ℕ)
    → q * unit + r ≡ digits
    → 2 * r ≡ unit
    → b < 2
    → (2 * ((q + b) * unit) ≤ 2 * digits + unit) × (2 * digits ≤ 2 * ((q + b) * unit) + unit)
half_way q r zero unit digits split half small =
    (grind (arith, split, half), grind (arith, split, half))
half_way q r (suc zero) unit digits split half small =
    (grind (arith, split, half), grind (arith, split, half))
half_way q r (suc (suc b)) unit digits split half small = absurd (omega (arith, small))

nearest :
    (q r unit digits : ℕ)
    → q * unit + r ≡ digits
    → r < unit
    → let n = (if ltb (2 * r) unit then q else if ltb unit (2 * r) then q + 1 else q + q % 2) in
      (2 * (n * unit) ≤ 2 * digits + unit) × (2 * digits ≤ 2 * (n * unit) + unit)
nearest q r unit digits split small = elim (Bool-cases (ltb (2 * r) unit)) [
  | inl below ↦ rw below (omega (arith, split, small), omega (arith, split, ltb→lt _ _ below))
  | inr rest ↦ elim (Bool-cases (ltb unit (2 * r))) [
    | inl above ↦
        rw (rest, above)
          (grind (arith, split, small, ltb→lt _ _ above), grind (arith, split, small))
    | inr half ↦
        rw (rest, half)
          (half_way q r (q % 2) unit digits split (ground arith) (mod-lt q (omega arith)))
  ]
]

-- A rounded number is at most half a unit away.
pub round_half_even-near :
    (unit digits : ℕ)
    → 1 ≤ unit
    → (2 * (round_half_even unit digits * unit) ≤ 2 * digits + unit)
      × (2 * digits ≤ 2 * (round_half_even unit digits * unit) + unit)
unfolding round_half_even
round_half_even-near unit digits h =
    nearest (digits / unit) (digits % unit) unit digits (div-add-mod' digits unit) (mod-lt digits h)
