-- ===== src/Domain/Audit.antt =====
-- src/domain/models/audit.py. SHA-256, `str(UUID)` and `datetime.isoformat` are the standard
-- library's: they enter as the parameter `Digest`.
use eu_saas.Prelude.{String, [], ◌∷◌}
use eu_saas.Text.{format}
use eu_saas.Domain.Values.{Uuid, Time, Attributes}

pub data AuditAction : Type 0 where
  tenant_created tenant_updated tenant_deleted user_login data_accessed data_exported data_erased
        schema_migrated cost_anomaly_detected retention_executed :
      AuditAction

abbrev pub action_value : AuditAction → String
action_value tenant_created = "TENANT_CREATED"
action_value tenant_updated = "TENANT_UPDATED"
action_value tenant_deleted = "TENANT_DELETED"
action_value user_login = "USER_LOGIN"
action_value data_accessed = "DATA_ACCESSED"
action_value data_exported = "DATA_EXPORTED"
action_value data_erased = "DATA_ERASED"
action_value schema_migrated = "SCHEMA_MIGRATED"
action_value cost_anomaly_detected = "COST_ANOMALY_DETECTED"
action_value retention_executed = "RETENTION_EXECUTED"

pub record Digest : Type 0 where
  pub sha256 : String → String
  pub str_uuid : Uuid → String
  pub isoformat : Time → String

-- `_compute_entry_hash`
unfoldable pub compute_entry_hash : Digest → String → AuditAction → Uuid → Time → String
compute_entry_hash d previous_hash action tenant_id timestamp = d.sha256 (
    format
      (previous_hash ∷ action_value action ∷ d.str_uuid tenant_id ∷ d.isoformat timestamp ∷ []))

pub record AuditEntry : Type 0 where
  pub id : Uuid
  pub tenant_id : Uuid
  pub action : AuditAction
  pub actor_id : Uuid
  pub details : Attributes
  pub timestamp : Time
  pub previous_hash : String
  pub entry_hash : String

-- The dataclass constructor: `__post_init__` computes `entry_hash` from the other fields.
unfoldable pub audit_entry :
    Digest
    → (id tenant_id : Uuid) → AuditAction
    → (actor_id : Uuid) → Attributes
    → (timestamp : Time) (previous_hash : String) → AuditEntry
audit_entry d id tenant_id action actor_id details timestamp previous_hash = record {
  id = id;
  tenant_id = tenant_id;
  action = action;
  actor_id = actor_id;
  details = details;
  timestamp = timestamp;
  previous_hash = previous_hash;
  entry_hash = compute_entry_hash d previous_hash action tenant_id timestamp;
}
