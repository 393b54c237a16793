-- ===== src/Presentation/Answers.antt =====
-- How the routes of tenants answer.
use eu_saas.Prelude.{
  ℕ, ◌≡◌, refl, String, Bool-cases, inl, inr, Option-cases, none, some, Option, lookup, nat_eq,
  string_eq, if◌then◌else◌, ◌==◌,
}
use eu_saas.Domain.Values.{Uuid}
use eu_saas.Domain.Tenant as Domain
use eu_saas.Domain.Tenant.{Tenant, status_eq}
use eu_saas.Domain.Lifecycle.{validate_transition, valid_transitions}
use eu_saas.Adapters.Tenants as Repo
use eu_saas.Container.{Container, World, Reply, running}
use eu_saas.Services.Auditing.{create_audit_entry}
use eu_saas.Services.Tenants as TenantService
use eu_saas.Services.Tenants.{schema_name_of, transition, provision}
use eu_saas.Presentation.{Response, code_of, respond, domain_error}
use eu_saas.Presentation.Schemas.{
  Validators, TenantStatus, TenantCreate, TenantTier, TenantResponse, tier_value, parse_tier,
  parse_status,
}
use eu_saas.Presentation.Tenants.{default_region, tenant_to_response, create_tenant, suspend_tenant}

parse_tier-tier_value : (tier : TenantTier) → parse_tier (tier_value tier) ≡ some tier
unfolding parse_tier
parse_tier-tier_value TenantTier.free = refl
parse_tier-tier_value TenantTier.starter = refl
parse_tier-tier_value TenantTier.professional = refl
parse_tier-tier_value TenantTier.enterprise = refl

suspendable :
    (status : Domain.TenantStatus)
    → validate_transition status Domain.suspended ≡ (status == Domain.active)
unfolding validate_transition valid_transitions
suspendable Domain.pending = refl
suspendable Domain.provisioning = refl
suspendable Domain.active = refl
suspendable Domain.suspended = refl
suspendable Domain.deprovisioning = refl
suspendable Domain.deleted = refl

-- The answer about the tenant that a body asks for.
pub record IsPresented (w : World) (body : TenantCreate) (s : Container)
    (response : Response TenantResponse) : Type 0 where
  tenant : TenantResponse
  created : response ≡ Response.success 201 tenant
  drawn : tenant.id ≡ w.uuid4 s.calls
  named : tenant.name ≡ body.name
  at : tenant.slug ≡ body.slug
  owned : tenant.admin_email ≡ body.admin_email
  state : tenant.status ≡ TenantStatus.active
  tier : tenant.tier ≡ body.tier
  region : tenant.data_residency_region ≡ default_region

module _ (w : World) (v : Validators) (path : String) (s : Container) where
  -- If the slug is free, the schema manager creates and migrates its schema, and the address of the
  -- body is normal, the client gets 201 with the new ACTIVE tenant, of the name, slug, address and
  -- tier of the body, but of the default region whatever region the body asks for.
  pub create_tenant-IsPresented :
      (body : TenantCreate)
      → Repo.get_by_slug s.tenants body.slug ≡ none
      → ((n : ℕ) → w.schemas.create_schema n (schema_name_of body.slug) ≡ Reply.returned tt)
      → ((n : ℕ) → w.schemas.run_migrations n (schema_name_of body.slug) ≡ Reply.returned tt)
      → v.email_str body.admin_email ≡ some body.admin_email
      → IsPresented w body s (respond w path (create_tenant w v body) s).0
  unfolding respond create_tenant TenantService.create_tenant provision transition
      create_audit_entry running validate_transition valid_transitions tenant_to_response
      parse_status lookup
  create_tenant-IsPresented body free made migrated normal =
      rw (free, made, migrated, normal, parse_tier-tier_value body.tier)
        (record {
          tenant = _;
          created = refl;
          drawn = refl;
          named = refl;
          at = refl;
          owned = refl;
          state = refl;
          tier = refl;
          region = refl;
        })

  abbrev pub presented_code : Option TenantResponse → ℕ
  presented_code none = 500
  presented_code (some tenant) = 200

  -- The code for a request to suspend what is stored under the id.
  abbrev pub suspension_code : Option Tenant → ℕ
  suspension_code none = 404
  suspension_code (some t) =
      if t.status == Domain.active
      then presented_code (
          tenant_to_response v (record t { status = Domain.suspended; updated_at = w.now s.calls }))
      else 409

  -- A request to suspend an unknown tenant gets 404 and one that is not ACTIVE 409. Otherwise it gets
  -- 200 if the suspended tenant fits the model of the answer, and 500 if not.
  pub suspend_tenant-code :
      (id : Uuid)
      → code_of (respond w path (suspend_tenant w v id) s).0
        ≡ suspension_code (Repo.get_by_id s.tenants id)
  unfolding respond suspend_tenant TenantService.suspend_tenant TenantService.get_tenant transition
      create_audit_entry running Repo.get_by_id domain_error
  suspend_tenant-code id = elim (Option-cases (lookup id s.tenants.store)) [
    | inl e ↦ rw e refl
    | inr (t, e) ↦
        let same = suspendable t.status in
        elim (Bool-cases (t.status == Domain.active)) [
          | inr other ↦ rw (e, same, other) refl
          | inl active_ ↦
              let suspended_ = record t { status = Domain.suspended; updated_at = w.now s.calls } in
              elim (Option-cases (tenant_to_response v suspended_)) [
                | inl fails ↦ rw (e, same, active_, fails) refl
                | inr (item, made) ↦ rw (e, same, active_, made) refl
              ]
        ]
  ]
