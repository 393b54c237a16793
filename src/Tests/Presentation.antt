-- ===== src/Tests/Presentation.antt =====
-- The routes at one office.
use eu_saas.Presentation.Slugs.{schema_name-determines}
use eu_saas.Prelude.{
  arith, ℕ, zero, suc, ◌==◌, ==_ne, sym, ap, ◌≢◌, String, code, ◌≡◌, refl, true, false, some, none,
  lookup, nat_eq, string_eq, [], ◌∷◌,
}
use eu_saas.Domain.Tenant as Domain
use eu_saas.Adapters.Tenants as Repo
use eu_saas.Container.{Result, Container, World}
use eu_saas.Pagination.{pagination_params, offset}
use eu_saas.Presentation.{Response, Outcome, code_of, respond, internal_server_error}
use eu_saas.Presentation.Schemas.{is_tenant_create, Validators, TenantCreate, TenantTier}
use eu_saas.Presentation.Tenants.{create_tenant, list_tenants, suspend_tenant}
use eu_saas.Presentation.Gdpr.{request_data_export, get_export_status, not_found}
use eu_saas.Presentation.Answers.{
  IsPresented, create_tenant-IsPresented, suspension_code, suspend_tenant-code,
}
use eu_saas.Presentation.Failures.{list_tenants-unlisted}
use eu_saas.Presentation.Exports.{IsUndashed, request_data_export-lost}
use eu_saas.Tests.Fixtures.{tally, world, office, acme}

-- All addresses are normal, and no character is told apart.
abbrev validators : Validators
validators = record {
  email_str = λ text. some text;
  isupper = λ c. true;
  islower = λ c. true;
  isdigit = λ c. true;
  isalnum = λ c. false;
}

abbrev bolt : TenantCreate
bolt = record {
  name = "Bolt";
  slug = "bolt";
  tier = TenantTier.professional;
  admin_email = "owner@bolt.eu";
  data_residency_region = "eu-north-1";
  metadata = none;
}

create_tenant-IsPresented_example :
    IsPresented world bolt office
      (respond world "/tenants" (create_tenant world validators bolt) office).0
unfolding Repo.get_by_slug lookup
create_tenant-IsPresented_example =
    create_tenant-IsPresented world validators "/tenants" office bolt refl (λ n. refl) (λ n. refl)
      refl

suspend_tenant-code_example :
    code_of (respond world "/tenants/7" (suspend_tenant world validators 7) office).0
    ≡ suspension_code world validators "/tenants/7" office (Repo.get_by_id office.tenants 7)
suspend_tenant-code_example = suspend_tenant-code world validators "/tenants/7" office 7

-- The office with a tenant that was deleted.
abbrev former : Container
former = record office {
  tenants = record {
    store = (7, acme) ∷ (6, record acme { id = 6; slug = "zeta"; status = Domain.deleted }) ∷ [];
    by_slug = ("acme", 7) ∷ ("zeta", 6) ∷ [];
  };
}

list_tenants-unlisted_example :
    respond world "/tenants" (list_tenants world validators 1 20 (some "DELETED")) former
    ≡ (Response.problem (internal_server_error "/tenants"), former)
unfolding Repo.list_tenants pagination_params offset
list_tenants-unlisted_example =
    list_tenants-unlisted world validators "/tenants" 1 20 (some "DELETED") former refl refl

-- Digits of an id that are no tally.
abbrev digital : World
digital = record world { hex = λ id. "00000000000000000000000000000000" }

abbrev first : String → ℕ
first String.[] = 0
first (String.◌∷◌ c text) = code c

tally-first : (b : ℕ) → first (tally b) ≢ 48
tally-first zero e = omega arith
tally-first (suc b) e = omega arith

digital-IsDashless : (b : ℕ) → ("00000000000000000000000000000000" == tally b) ≡ false
digital-IsDashless b =
    ==_ne "00000000000000000000000000000000" (tally b) (λ e. tally-first b (sym (ap first e)))

request_data_export-lost_example :
    let t = (request_data_export digital 7 office).1 in
    IsUndashed digital t.jobs
    × ((job_id : ℕ)
        → get_export_status digital 7 job_id t
          ≡ (Result.ok (Outcome.refused 404 (not_found digital 7 job_id)), t))
unfolding lookup
request_data_export-lost_example =
    request_data_export-lost digital 7 office (λ a b. digital-IsDashless b) (λ id. refl)

-- Two bodies with the same slug of two words.
abbrev bolt_eu : TenantCreate
bolt_eu = record bolt { slug = "bolt-eu" }

abbrev other_bolt : TenantCreate
other_bolt = record bolt_eu { name = "Other" }

schema_name-determines_example : bolt_eu.slug ≡ other_bolt.slug
unfolding is_tenant_create
schema_name-determines_example =
    schema_name-determines (λ name. name) bolt_eu other_bolt (λ name short. refl) refl refl
      (omega arith) (omega arith) refl
