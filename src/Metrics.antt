-- ===== src/Metrics.antt =====
-- src/infrastructure/cost/metrics_collector.py. Floats, the random source and the answers of
-- Prometheus are parameters; a time is its microseconds since the epoch.
pub mod Series
use Prim.Native.Nat.{max}
use eu_saas.Prelude.{
  ℕ, zero, suc, ◌+◌, ◌-◌, ◌*◌, ◌/◌, String, Option, none, some, List, [], ◌∷◌, ◌++◌, ltb, bind,
  if◌then◌else◌,
}
use eu_saas.Text.{format}
use eu_saas.Domain.Values.{Time}

pub record DataPoint (V : Type 0) : Type 0 where
  pub timestamp : Time
  pub value : V

-- `float(text)`, where `none` is a `ValueError`, `datetime.fromtimestamp(float(text), tz=UTC)`,
-- `int(x)` of a float that is not negative, and `str(n)`.
pub record Readings (V : Type 0) : Type 0 where
  pub zero_float : V
  pub float : String → Option V
  pub fromtimestamp : String → Option Time
  pub truncated : V → ℕ
  pub str : ℕ → String

-- The draws of `random.Random`, by their number, and the arithmetic of the mock collector:
-- `base + rng.uniform(-jitter, jitter)` and `max(0.0, value)`.
pub record Draws (V : Type 0) : Type 0 where
  pub jittered : ℕ → (base jitter : V) → V
  pub not_negative : V → V
  pub randint : ℕ → (least most : ℕ) → ℕ

-- One item of "result": its "values" or its "value", if it has them.
pub record SeriesResult : Type 0 where
  pub points : Option (List (String × String))
  pub value : Option (String × String)

-- `max(1, int((end - start).total_seconds()))`
unfoldable pub range_seconds : Time → Time → ℕ
range_seconds start end = max 1 ((end - start) / 1000000)

module _ {V : Type 0} (r : Readings V) where
  abbrev point_of : String × String → Option (DataPoint V)
  point_of (ts, val) = bind (r.fromtimestamp ts) λ timestamp.
      bind (r.float val) λ value. some (record { timestamp = timestamp; value = value })

  abbrev points_of : List (String × String) → Option (List (DataPoint V))
  points_of [] = some []
  points_of (pair ∷ pairs) =
      bind (point_of pair) λ point. bind (points_of pairs) λ points. some (point ∷ points)

  abbrev or_no_points : Option (List (String × String)) → List (String × String)
  or_no_points none = []
  or_no_points (some pairs) = pairs

  -- The points that `query_range` reads from the answer: `none` is a `ValueError`.
  unfoldable pub query_range : List SeriesResult → Option (List (DataPoint V))
  query_range [] = some []
  query_range (result ∷ results) =
      bind (points_of (or_no_points result.points))
        λ here. bind (query_range results) λ rest. some (here ++ rest)

  abbrev first_value : Option (String × String) → String
  first_value none = "0"
  first_value (some (ts, val)) = val

  unfoldable pub query_instant : List SeriesResult → Option V
  query_instant [] = some r.zero_float
  query_instant (result ∷ results) = r.float (first_value result.value)

  unfoldable pub cpu_query : String → String
  cpu_query tenant_id = format (
      "sum(rate(container_cpu_usage_seconds_total{tenant_id=\"" ∷ tenant_id
      ∷ "\"}[5m])) by (tenant_id)" ∷ [])

  unfoldable pub memory_query : String → String
  memory_query tenant_id =
      format
        ("sum(container_memory_usage_bytes{tenant_id=\"" ∷ tenant_id ∷ "\"}) by (tenant_id)" ∷ [])

  unfoldable pub storage_query : String → String
  storage_query tenant_id =
      format ("sum(tenant_storage_bytes{tenant_id=\"" ∷ tenant_id ∷ "\"})" ∷ [])

  unfoldable pub api_call_query : String → Time → Time → String
  api_call_query tenant_id start end = format (
      "sum(increase(api_requests_total{tenant_id=\""
      ∷ tenant_id
      ∷ "\"}["
      ∷ r.str (range_seconds start end)
      ∷ "s]))"
      ∷ [])

  abbrev counted : Option V → Option ℕ
  counted none = none
  counted (some value) = some (r.truncated value)

  -- The collector, given what Prometheus answers to a query.
  module _ (range : String → Time → Time → List SeriesResult)
      (instant : String → List SeriesResult) where
    unfoldable pub get_cpu_usage : String → Time → Time → Option (List (DataPoint V))
    get_cpu_usage tenant_id start end = query_range (range (cpu_query tenant_id) start end)

    unfoldable pub get_memory_usage : String → Time → Time → Option (List (DataPoint V))
    get_memory_usage tenant_id start end = query_range (range (memory_query tenant_id) start end)

    unfoldable pub get_storage_usage : String → Option ℕ
    get_storage_usage tenant_id = counted (query_instant (instant (storage_query tenant_id)))

    unfoldable pub get_api_call_count : String → Time → Time → Option ℕ
    get_api_call_count tenant_id start end =
        counted (query_instant (instant (api_call_query tenant_id start end)))

-- `timedelta(seconds=step_seconds)`, for the default of 60.
abbrev pub step : Time
step = 60000000

module _ {V : Type 0} (d : Draws V) (base jitter : V) where
  -- The loop of `_generate_series` from the draw `n` on, with fuel: `none` if it runs out.
  unfoldable pub generate_from : ℕ → ℕ → Time → Time → Option (List (DataPoint V))
  generate_from zero n current end = none
  generate_from (suc fuel) n current end =
      let rest = generate_from fuel (n + 1) (current + step) end in
      if ltb end current
      then some []
      else bind rest λ points.
        some (
          record { timestamp = current; value = d.not_negative (d.jittered n base jitter) }
          ∷ points)

  unfoldable pub generate_series : ℕ → Time → Time → Option (List (DataPoint V))
  generate_series n start end = generate_from ((end - start) / step + 2) n start end

-- The mock's count of calls, from the draw `n`.
unfoldable pub mock_api_call_count : {V : Type 0} → Draws V → ℕ → Time → Time → ℕ
mock_api_call_count d n start end = d.randint n 100 500 * max 1 ((end - start) / 3600000000)
