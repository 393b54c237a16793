-- ===== src/Tests/Platform.antt =====
-- A short history of a container.
use eu_saas.Services.Tenants.{create_tenant}
use eu_saas.Prelude.{◌≡◌, refl, none, some, List, [], ◌∷◌, lookup, insert, nat_eq, string_eq, arith}
use eu_saas.Domain.Tenant.{Tenant, TenantStatus, active, deleted}
use eu_saas.Container.{Container, fresh, running}
use eu_saas.Adapters.Tenants as TenantRepo
use eu_saas.Services.Auditing.{create_audit_entry}
use eu_saas.Text.{replace_dashes}
use eu_saas.Domain.Values.{Uuid}
use eu_saas.Domain.Lifecycle.{validate_transition}
use eu_saas.Services.Tenants.{create_tenant, provision, transition}
use eu_saas.Platform.{handle, Request, serve}
use eu_saas.Services.Registry.{IsConsistent, Succeeds}
use eu_saas.Services.Auditing.Chain.{Appends}
use eu_saas.Platform.Log.{serve-Appends}
use eu_saas.Platform.Lifecycle.{serve-Succeeds, serve-deleted, serve-slugs}
use eu_saas.Tests.Fixtures.{world, world-AreDistinct, office, acme}

abbrev history : List Request
history =
    Request.create_tenant "Bolt" "bolt" "owner@bolt.eu" none
    ∷ Request.suspend_tenant 7
    ∷ Request.execute_erasure 7
    ∷ Request.activate_tenant 7
    ∷ []

-- The office with its tenant in a given status.
abbrev acme_as : TenantStatus → Tenant
acme_as status = record acme { status = status }

abbrev office_as : TenantStatus → Container
office_as status = record office {
  tenants = record { store = (7, acme_as status) ∷ []; by_slug = ("acme", 7) ∷ [] };
}

office-IsConsistent : (status : TenantStatus) → IsConsistent world (office_as status)
unfolding lookup
office-IsConsistent status = record {
  filed = λ k t e. ground arith;
  drawn = λ k t e. (6, ground arith, ground arith);
  indexed = λ k t e. ground (arith, string_eq.equal_iff "acme" t.slug);
  pointing = λ slug k e.
      (acme_as status, ground (arith, e), ground (arith, e, string_eq.equal_iff "acme" slug));
}

serve-Appends_example : Appends world office (serve world history office)
serve-Appends_example = serve-Appends world history office

serve-Succeeds_example :
    (u : Tenant) × (lookup 7 (serve world history (office_as active)).tenants.store ≡ some u)
    × Succeeds (acme_as active) u
unfolding lookup
serve-Succeeds_example =
    serve-Succeeds world world-AreDistinct history (office_as active) 7 (acme_as active)
      (office-IsConsistent active) refl

serve-deleted_example :
    (u : Tenant) × (lookup 7 (serve world history (office_as deleted)).tenants.store ≡ some u)
    × (u.status ≡ deleted)
unfolding lookup
serve-deleted_example =
    serve-deleted world world-AreDistinct history (office_as deleted) 7 (acme_as deleted)
      (office-IsConsistent deleted) refl refl

-- The tenant that a first request creates.
abbrev bolt : Tenant
bolt = record {
  id = 1;
  name = "Bolt";
  slug = "bolt";
  owner_email = "owner@bolt.eu";
  status = active;
  schema_name = "tenant_bolt";
  created_at = 1;
  updated_at = 6;
  settings = [];
  metadata = [];
}

abbrev creation : List Request
creation = Request.create_tenant "Bolt" "bolt" "owner@bolt.eu" none ∷ []

bolt-created : lookup 1 (serve world creation fresh).tenants.store ≡ some bolt
unfolding serve handle create_tenant provision transition validate_transition replace_dashes
    TenantRepo.get_by_slug TenantRepo.save TenantRepo.update running lookup insert
    create_audit_entry
bolt-created = refl

serve-slugs_example : ◌≡◌ {A = Uuid} 1 1
serve-slugs_example =
    serve-slugs world world-AreDistinct creation 1 1 bolt bolt bolt-created bolt-created refl
