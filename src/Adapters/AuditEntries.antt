-- ===== src/Adapters/AuditEntries.antt =====
-- `InMemoryAuditRepository`: the entries in the order in which they were appended.
use eu_saas.Prelude.{Option, List, [], ◌∷◌, ◌++◌, reverse, find, ◌==◌, nat_eq}
use eu_saas.Domain.Values.{Uuid}
use eu_saas.Domain.Audit.{AuditEntry}

unfoldable pub get_latest_entry : List AuditEntry → Uuid → Option AuditEntry
get_latest_entry entries tenant_id = find (λ e. e.tenant_id == tenant_id) (reverse entries)

unfoldable pub save : AuditEntry → List AuditEntry → List AuditEntry
save entry entries = entries ++ entry ∷ []
