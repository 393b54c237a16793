-- ===== src/Domain/Values.antt =====
-- The values that the models hold. A UUID is its 128-bit integer, a datetime its microseconds
-- since the epoch, and a date its days since the epoch; the program only compares and adds them.
use eu_saas.Prelude.{ℕ, String, List, ◌*◌, Dict}

abbrev pub Uuid : Type 0
Uuid = ℕ

abbrev pub Time : Type 0
Time = ℕ

abbrev pub Date : Type 0
Date = ℕ

abbrev pub microseconds_per_day : ℕ
microseconds_per_day = 86400000000

-- `timedelta(days=n)` and `timedelta(minutes=n)`
abbrev pub days : ℕ → Time
days n = n * microseconds_per_day

abbrev pub minutes : ℕ → Time
minutes n = n * 60000000

-- What the program puts into a `dict[str, Any]`.
pub data Value : Type 0 where
  text : String → Value
  int : ℕ → Value
  texts : List String → Value

abbrev pub Attributes : Type 0
Attributes = Dict String Value
