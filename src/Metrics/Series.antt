-- ===== src/Metrics/Series.antt =====
-- The series of the mock collector.
use eu_saas.Prelude.{
  ℕ, zero, suc, ◌+◌, ◌-◌, ◌/◌, ◌<◌, ◌≡◌, refl, false, Bool-cases, inl, inr, some, List, [], ◌∷◌,
  ltb, arith, if◌then◌else◌,
}
use eu_saas.Domain.Values.{Time}
use eu_saas.Metrics.{DataPoint, Draws, step, generate_from, generate_series}

-- How many points lie between two times.
abbrev pub count : Time → Time → ℕ
count start end = if ltb end start then 0 else (end - start) / step + 1

module _ {V : Type 0} (d : Draws V) (base jitter : V) where
  -- That many points, a minute apart, from a time on.
  abbrev pub minutely : ℕ → ℕ → Time → List (DataPoint V)
  minutely zero n current = []
  minutely (suc k) n current =
      record { timestamp = current; value = d.not_negative (d.jittered n base jitter) }
      ∷ minutely k (n + 1) (current + step)

  count-step :
      (current end : Time)
      → ltb end current ≡ false
      → count current end ≡ suc (count (current + step) end)
  count-step current end h = ground arith

  generate_from-count :
      (fuel n : ℕ) (current end : Time)
      → count current end < fuel
      → generate_from d base jitter fuel n current end
        ≡ some (minutely (count current end) n current)
  unfolding generate_from
  generate_from-count zero n current end h = absurd (ground arith)
  generate_from-count (suc fuel) n current end h = elim (Bool-cases (ltb end current)) [
    | inl past ↦ rw past refl
    | inr more ↦
        let next = count-step current end more in
        let less : count (current + step) end < fuel = omega (arith, h, next) in
        rw (next, generate_from-count fuel (n + 1) (current + step) end less, more) refl
  ]

  -- The loop ends: the series has a point each minute from the start on, up to the end.
  pub generate_series-ends :
      (n : ℕ) (start end : Time)
      → generate_series d base jitter n start end ≡ some (minutely (count start end) n start)
  unfolding generate_series
  generate_series-ends n start end =
      generate_from-count ((end - start) / step + 2) n start end (ground arith)
