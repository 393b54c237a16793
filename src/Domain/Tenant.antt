-- ===== src/Domain/Tenant.antt =====
-- src/domain/models/tenant.py
use eu_saas.Prelude.{ℕ, ◌≡◌, ◌↔◌, String, Bool, List, [], ◌∷◌, arith, nat_beq, Comparable}
use eu_saas.Domain.Values.{Uuid, Time, Attributes}

pub data TenantStatus : Type 0 where
  pending provisioning active suspended deprovisioning deleted : TenantStatus

abbrev pub status_value : TenantStatus → String
status_value pending = "PENDING"
status_value provisioning = "PROVISIONING"
status_value active = "ACTIVE"
status_value suspended = "SUSPENDED"
status_value deprovisioning = "DEPROVISIONING"
status_value deleted = "DELETED"

-- `VALID_STATE_TRANSITIONS`
unfoldable pub valid_state_transitions : TenantStatus → List TenantStatus
valid_state_transitions pending = provisioning ∷ deleted ∷ []
valid_state_transitions provisioning = active ∷ deleted ∷ []
valid_state_transitions active = suspended ∷ deprovisioning ∷ []
valid_state_transitions suspended = active ∷ deprovisioning ∷ []
valid_state_transitions deprovisioning = deleted ∷ []
valid_state_transitions deleted = []

pub record Tenant : Type 0 where
  pub id : Uuid
  pub name : String
  pub slug : String
  pub owner_email : String
  pub status : TenantStatus
  pub schema_name : String
  pub created_at : Time
  pub updated_at : Time
  pub settings : Attributes
  pub metadata : Attributes

-- The position of a status in the enumeration, by which two of them are compared.
abbrev position : TenantStatus → ℕ
position pending = 0
position provisioning = 1
position active = 2
position suspended = 3
position deprovisioning = 4
position deleted = 5

abbrev status_beq : TenantStatus → TenantStatus → Bool
status_beq a b = nat_beq (position a) (position b)

pub status_beq_iff : (a b : TenantStatus) → (status_beq a b ≡ Bool.true) ↔ (a ≡ b)
status_beq_iff a b = ground arith

instance abbrev pub status_eq : Comparable TenantStatus
status_eq = record { equal = status_beq; equal_iff = status_beq_iff }
