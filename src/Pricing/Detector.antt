-- ===== src/Pricing/Detector.antt =====
-- src/infrastructure/cost/anomaly_detector.py
use eu_saas.Prelude.{
  ℕ, ◌≡◌, refl, sym, ◌∙◌, false≢true, Bool, true, false, ◌||◌, List, [], ◌∷◌, map, length, ltb,
  if◌then◌else◌, Bool-cases, inl, inr,
}
use eu_saas.Domain.Billing.{Float}
use eu_saas.Pricing.{FloatOps}

pub record AnomalyResult : Type 0 where
  pub is_anomaly : Bool
  pub expected_min : Float
  pub expected_max : Float
  pub actual_value : Float
  pub deviation_factor : Float

abbrev pub min_history_length : ℕ
min_history_length = 3

module _ (f : FloatOps) where
  abbrev zero_float : Float
  zero_float = f.literal (record { digits = 0; places = 1 })

  -- `1e-9`
  abbrev tiny : Float
  tiny = f.literal (record { digits = 1; places = 9 })

  abbrev sum_from : Float → List Float → Float
  sum_from start [] = start
  sum_from start (v ∷ values) = sum_from (f.add start v) values

  unfoldable pub mean_of : List Float → Float
  mean_of values = f.div (sum_from (f.of_int 0) values) (f.of_int (length values))

  -- `(v - mean) ** 2`
  abbrev squared : Float → Float → Float
  squared mean v = let d = f.sub v mean in f.mul d d

  unfoldable pub std_of : List Float → Float → Float
  std_of values mean =
      f.sqrt (f.div (sum_from (f.of_int 0) (map (squared mean) values)) (f.of_int (length values)))

  abbrev flat : Float → Float → Bool → AnomalyResult
  flat current_value mean is_anomaly = record {
    is_anomaly = is_anomaly;
    expected_min = mean;
    expected_max = mean;
    actual_value = current_value;
    deviation_factor = if is_anomaly then f.infinity else zero_float;
  }

  abbrev judged : Float → Float → Float → Float → AnomalyResult
  judged current_value threshold mean std =
      let expected_min = f.sub mean (f.mul threshold std) in
      let expected_max = f.add mean (f.mul threshold std) in
      record {
        is_anomaly = f.less current_value expected_min || f.less expected_max current_value;
        expected_min = expected_min;
        expected_max = expected_max;
        actual_value = current_value;
        deviation_factor = f.round 4 (f.div (f.abs (f.sub current_value mean)) std);
      }

  unfoldable pub detect : Float → List Float → Float → AnomalyResult
  detect current_value historical_values threshold =
      let mean = mean_of historical_values in
      let std = std_of historical_values mean in
      if ltb (length historical_values) min_history_length
      then record {
        is_anomaly = false;
        expected_min = zero_float;
        expected_max = zero_float;
        actual_value = current_value;
        deviation_factor = zero_float;
      }
      else if f.less std tiny
      then flat current_value mean (f.less tiny (f.abs (f.sub current_value mean)))
      else judged current_value threshold mean std

  -- The reported value is the given one in every branch. Less than three values of history raise no
  -- alarm, and with a history that varies, a value does exactly outside of the reported range.
  pub record IsJudged (current_value : Float) (historical_values : List Float) (r : AnomalyResult)
      : Type 0 where
    pub actual : r.actual_value ≡ current_value
    pub quiet : ltb (length historical_values) min_history_length ≡ true → r.is_anomaly ≡ false
    pub outside :
        ltb (length historical_values) min_history_length ≡ false
        → f.less (std_of historical_values (mean_of historical_values)) tiny ≡ false
        → r.is_anomaly
          ≡ (f.less current_value r.expected_min || f.less r.expected_max current_value)

  pub detect-IsJudged :
      (current_value : Float) (historical_values : List Float) (threshold : Float)
      → IsJudged current_value historical_values (detect current_value historical_values threshold)
  unfolding detect
  detect-IsJudged current_value historical_values threshold =
      elim (Bool-cases (ltb (length historical_values) min_history_length)) [
        | inl short ↦ rw short (record {
          actual = refl;
          quiet = λ h. refl;
          outside = λ h. absurd (false≢true (sym h ∙ short));
        })
        | inr long ↦
            elim (Bool-cases (f.less (std_of historical_values (mean_of historical_values)) tiny)) [
              | inl flat_history ↦
                  rw (long, flat_history)
                    (record {
                      actual = refl;
                      quiet = λ h. absurd (false≢true (sym long ∙ h));
                      outside = λ h k. absurd (false≢true (sym k ∙ flat_history));
                    })
              | inr varied ↦
                  rw (long, varied)
                    (record {
                      actual = refl;
                      quiet = λ h. absurd (false≢true (sym long ∙ h));
                      outside = λ h k. refl;
                    })
            ]
      ]
