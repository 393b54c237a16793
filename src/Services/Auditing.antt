-- ===== src/Services/Auditing.antt =====
-- `_create_audit_entry`, which TenantService, AuthService, BillingService and GDPRService repeat.
pub mod Chain
use eu_saas.Prelude.{ℕ, String, Option, none, some, List}
use eu_saas.Domain.Values.{Uuid, Attributes}
use eu_saas.Domain.Audit.{AuditAction, AuditEntry, audit_entry}
use eu_saas.Adapters.AuditEntries
use eu_saas.Container.{Container, World, Action, ◌>>=◌, ◌>>◌, pure, gets, call, modify}

-- `latest.entry_hash if latest else ""`
abbrev pub hash_of : Option AuditEntry → String
hash_of none = ""
hash_of (some entry) = entry.entry_hash

-- `self._audit_repo.save(entry)`
abbrev pub save_entry : AuditEntry → Container → Container
save_entry entry s = record s { audit = AuditEntries.save entry s.audit }

unfoldable pub create_audit_entry :
    World → Uuid → AuditAction → Uuid → Attributes → Action AuditEntry
create_audit_entry w tenant_id action actor_id details = do
  latest ← gets (λ s. AuditEntries.get_latest_entry s.audit tenant_id)
  id ← call w.uuid4
  timestamp ← call w.now
  let entry = audit_entry w.digest id tenant_id action actor_id details timestamp (hash_of latest)
  modify (save_entry entry)
  pure entry
