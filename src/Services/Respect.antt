-- ===== src/Services/Respect.antt =====
-- Relations that see only the tenant registry, the audit log and the calls: whatever a service
-- writes elsewhere follows them, and what is left to show is how it writes audit entries.
use eu_saas.Prelude.{◌≡◌}
use eu_saas.Domain.Values.{Uuid, Attributes}
use eu_saas.Domain.Audit.{AuditAction}
use eu_saas.Container.{Container, World, modify}
use eu_saas.Container.Follows.{Preorder, Follows, modify-Follows, follow_rules}
use eu_saas.Services.Auditing.{create_audit_entry}

pub record Respects (w : World) (R : Container → Container → Type 0) : Type 0 where
  pub preorder : Preorder R
  pub elsewhere :
      (s t : Container) → t.tenants ≡ s.tenants → t.audit ≡ s.audit → t.calls ≡ s.calls → R s t
  pub auditing :
      (tenant_id : Uuid) (action : AuditAction) (actor_id : Uuid) (details : Attributes)
      → Follows R (create_audit_entry w tenant_id action actor_id details)

module _ {w : World} {R : Container → Container → Type 0} (r : Respects w R) where
  pub auditing-Follows :
      (tenant_id : Uuid) (action : AuditAction) (actor_id : Uuid) (details : Attributes)
      → Follows R (create_audit_entry w tenant_id action actor_id details)
  auditing-Follows = r.auditing

  -- A write to another part of the container.
  pub write-Follows :
      (f : Container → Container)
      → ((s : Container) → (f s).tenants ≡ s.tenants)
      → ((s : Container) → (f s).audit ≡ s.audit)
      → ((s : Container) → (f s).calls ≡ s.calls)
      → Follows R (modify f)
  write-Follows f tenants audit calls =
      modify-Follows r.preorder f (λ s. r.elsewhere s (f s) (tenants s) (audit s) (calls s))

  pub respected : Preorder R
  respected = r.preorder

pub ruleset respect_rules = (follow_rules, auditing-Follows, respected)
