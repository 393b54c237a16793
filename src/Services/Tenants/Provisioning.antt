-- ===== src/Services/Tenants/Provisioning.antt =====
-- How `create_tenant` ends, by what the schema manager answers.
use eu_saas.Prelude.{
  ◌≡◌, refl, ℕ, String, Option, none, some, nat_eq, [], ◌∷◌, ◌++◌, lookup-insert_self,
}
use eu_saas.Domain.Values.{Attributes}
use eu_saas.Domain.Tenant.{Tenant, active, deleted}
use eu_saas.Domain.Audit.{AuditEntry, audit_entry, tenant_created}
use eu_saas.Domain.Errors.{external}
use eu_saas.Domain.Lifecycle.{validate_transition}
use eu_saas.Adapters.Tenants as Repo
use eu_saas.Adapters.AuditEntries
use eu_saas.Container.{Result, ok, err, Container, World, Reply, running}
use eu_saas.Services.Auditing.{create_audit_entry}
use eu_saas.Services.Tenants.{transition, provision, create_tenant, schema_name_of}

-- The tenant that `create_tenant` returns: new, active, and stored under its id and slug.
pub record IsCreated (w : World) (slug : String) (s : Container) (r : Result Tenant × Container)
    : Type 0 where
  tenant : Tenant
  result : r.0 ≡ ok tenant
  drawn : tenant.id ≡ w.uuid4 s.calls
  named : tenant.slug ≡ slug
  state : tenant.status ≡ active
  stored : Repo.get_by_id r.1.tenants tenant.id ≡ some tenant
  indexed : Repo.get_by_slug r.1.tenants slug ≡ some tenant
  entry : AuditEntry
  logged : r.1.audit ≡ s.audit ++ entry ∷ []
  about : entry.tenant_id ≡ tenant.id
  kind : entry.action ≡ tenant_created

-- What a failed provisioning leaves.
pub record IsRolledBack (w : World) (slug message : String) (s : Container)
    (r : Result Tenant × Container) : Type 0 where
  tenant : Tenant
  result : r.0 ≡ err (external message)
  drawn : tenant.id ≡ w.uuid4 s.calls
  named : tenant.slug ≡ slug
  state : tenant.status ≡ deleted
  stored : Repo.get_by_id r.1.tenants tenant.id ≡ some tenant
  log : r.1.audit ≡ s.audit

module _ (w : World) (name slug owner_email : String) (settings : Option Attributes) where
  -- If the slug is free and the schema manager creates and migrates its schema, the new ACTIVE
  -- tenant is returned, stored under its drawn id and its slug, and one TENANT_CREATED entry is
  -- logged.
  pub create_tenant-IsCreated :
      (s : Container)
      → Repo.get_by_slug s.tenants slug ≡ none
      → ((n : ℕ) → w.schemas.create_schema n (schema_name_of slug) ≡ Reply.returned tt)
      → ((n : ℕ) → w.schemas.run_migrations n (schema_name_of slug) ≡ Reply.returned tt)
      → IsCreated w slug s (create_tenant w name slug owner_email settings s)
  unfolding create_tenant provision transition create_audit_entry running Repo.get_by_id
      Repo.get_by_slug Repo.save Repo.update AuditEntries.save audit_entry validate_transition
  create_tenant-IsCreated s free made migrated =
      rw (free, made, migrated)
        (record {
          tenant = _;
          result = refl;
          drawn = refl;
          named = refl;
          state = refl;
          stored = lookup-insert_self _ _ _;
          indexed = simp lookup-insert_self;
          entry = _;
          logged = refl;
          about = refl;
          kind = refl;
        })
