-- ===== src/Domain/Billing.antt =====
-- src/domain/models/billing.py. A float of the anomaly detector is its 64-bit pattern.
use eu_saas.Prelude.{ℕ, ◌≡◌, ◌↔◌, String, Bool, List, arith, nat_beq, Comparable}
use eu_saas.Domain.Values.{Uuid, Time, Date, Attributes}
use eu_saas.Domain.Decimal.{Decimal}

pub data ResourceType : Type 0 where
  cpu memory storage network api_calls : ResourceType

abbrev pub resource_value : ResourceType → String
resource_value cpu = "CPU"
resource_value memory = "MEMORY"
resource_value storage = "STORAGE"
resource_value network = "NETWORK"
resource_value api_calls = "API_CALLS"

abbrev position : ResourceType → ℕ
position cpu = 0
position memory = 1
position storage = 2
position network = 3
position api_calls = 4

abbrev resource_beq : ResourceType → ResourceType → Bool
resource_beq a b = nat_beq (position a) (position b)

pub resource_beq_iff : (a b : ResourceType) → (resource_beq a b ≡ Bool.true) ↔ (a ≡ b)
resource_beq_iff a b = ground arith

instance abbrev pub resource_eq : Comparable ResourceType
resource_eq = record { equal = resource_beq; equal_iff = resource_beq_iff }

pub record UsageRecord : Type 0 where
  pub id : Uuid
  pub tenant_id : Uuid
  pub resource_type : ResourceType
  pub quantity : Decimal
  pub unit : String
  pub recorded_at : Time

pub record CostRecord : Type 0 where
  pub id : Uuid
  pub tenant_id : Uuid
  pub date : Date
  pub resource_type : ResourceType
  pub quantity : Decimal
  pub unit_price : Decimal
  pub total_cost : Decimal
  pub currency : String

pub record Invoice : Type 0 where
  pub id : Uuid
  pub tenant_id : Uuid
  pub period_start : Date
  pub period_end : Date
  pub line_items : List Attributes
  pub total_amount : Decimal
  pub currency : String
  pub status : String
  pub generated_at : Time

-- `Decimal(str(round(x, 6)))`, for a float that may be infinite.
pub data Reading : Type 0 where
  finite : Decimal → Reading
  infinite : Reading

pub record CostAnomaly : Type 0 where
  pub id : Uuid
  pub tenant_id : Uuid
  pub resource_type : ResourceType
  pub expected_value : Reading
  pub actual_value : Reading
  pub deviation_factor : Reading
  pub detected_at : Time
  pub acknowledged : Bool

abbrev pub Float : Type 0
Float = ℕ

-- Floating-point arithmetic, and `mean` and `stdev` of the module `statistics`.
pub record Floats : Type 0 where
  pub float : Decimal → Float
  pub infinity : Float
  pub mean : List Float → Float
  pub stdev : List Float → Float
  pub equals : Float → Float → Bool
  pub at_least : Float → Float → Bool
  -- `abs(x - y)` and `x / y`
  pub distance : Float → Float → Float
  pub quotient : Float → Float → Float
  pub rounded : Float → Reading

-- What the services use of `date` and `calendar.monthrange`.
pub record Calendar : Type 0 where
  pub year : Date → ℕ
  pub month : Date → ℕ
  pub day : Date → ℕ
  pub days_in_month : Date → ℕ
