-- ===== src/Services/Tenants/Outcomes.antt =====
-- How the methods that move a tenant end, on every branch.
use eu_saas.Prelude.{
  ◌≡◌, refl, inl, inr, true, false, Bool-cases, Option-cases, none, some, lookup, nat_eq, [], ◌∷◌,
  ◌++◌,
}
use eu_saas.Domain.Values.{Uuid}
use eu_saas.Domain.Tenant.{Tenant, TenantStatus, active, suspended, deprovisioning}
use eu_saas.Domain.Audit.{AuditAction, AuditEntry, audit_entry, tenant_updated, tenant_deleted}
use eu_saas.Domain.Errors.{tenant_not_found, invalid_state_transition}
use eu_saas.Domain.Lifecycle.{validate_transition}
use eu_saas.Adapters.Tenants as Repo
use eu_saas.Adapters.AuditEntries
use eu_saas.Container.{Result, ok, err, Container, World, running}
use eu_saas.Services.Auditing.{create_audit_entry}
use eu_saas.Services.Tenants.{
  get_tenant, transition, suspend_tenant, activate_tenant, deprovision_tenant,
}

-- The tenant `t` is moved: the changed value is returned and written back, exactly one entry is
-- added to the audit log, and users, tokens, jobs, policies and cache stay.
pub record IsMoved (w : World) (t : Tenant) (status : TenantStatus) (action : AuditAction)
    (s : Container) (r : Result Tenant × Container) : Type 0 where
  pub changed : Tenant
  pub renamed : changed ≡ record t { status = status; updated_at = w.now s.calls }
  pub returned : r.0 ≡ ok changed
  pub written : r.1.tenants ≡ Repo.update changed s.tenants
  pub entry : AuditEntry
  pub logged : r.1.audit ≡ s.audit ++ entry ∷ []
  pub about : entry.tenant_id ≡ t.id
  pub kind : entry.action ≡ action
  pub users : r.1.users ≡ s.users
  pub tokens : r.1.tokens ≡ s.tokens
  pub jobs : r.1.jobs ≡ s.jobs
  pub policies : r.1.policies ≡ s.policies
  pub cache : r.1.cache ≡ s.cache

-- A method that moves a tenant: an unknown tenant and a transition that the lifecycle has not are
-- refused, and nothing changes then.
pub data Moves (w : World) (id : Uuid) (status : TenantStatus) (action : AuditAction)
    (s : Container) : Result Tenant × Container → Type 0 where
  missing :
      lookup id s.tenants.store ≡ none → Moves w id status action s (err (tenant_not_found id), s)
  refused :
      (t : Tenant)
      → lookup id s.tenants.store ≡ some t
      → validate_transition t.status status ≡ false
      → Moves w id status action s (err (invalid_state_transition t.status status), s)
  moved :
      (t : Tenant) (r : Result Tenant × Container)
      → lookup id s.tenants.store ≡ some t
      → validate_transition t.status status ≡ true
      → IsMoved w t status action s r
      → Moves w id status action s r

module _ (w : World) (id : Uuid) (s : Container) where
  -- An unknown tenant and a transition that is not valid are refused, with the container unchanged;
  -- otherwise the tenant is stored and returned as SUSPENDED, exactly one entry is logged for
  -- it, and users, tokens, jobs, policies and cache stay.
  pub suspend_tenant-Moves : Moves w id suspended tenant_updated s (suspend_tenant w id s)
  unfolding suspend_tenant get_tenant transition create_audit_entry running Repo.get_by_id
      AuditEntries.save audit_entry
  suspend_tenant-Moves = elim (Option-cases (lookup id s.tenants.store)) [
    | inl e ↦ rw e (missing e)
    | inr (t, e) ↦ elim (Bool-cases (validate_transition t.status suspended)) [
      | inl v ↦ moved t _ e v (
          rw (e, v)
            (record {
              changed = _;
              renamed = refl;
              returned = refl;
              written = refl;
              entry = _;
              logged = refl;
              about = refl;
              kind = refl;
              users = refl;
              tokens = refl;
              jobs = refl;
              policies = refl;
              cache = refl;
            }))
      | inr v ↦ rw (e, v) (refused t e v)
    ]
  ]

  -- An unknown tenant and a transition that is not valid are refused, with the container unchanged;
  -- otherwise the tenant is stored and returned as ACTIVE, exactly one entry is logged for
  -- it, and users, tokens, jobs, policies and cache stay.
  pub activate_tenant-Moves : Moves w id active tenant_updated s (activate_tenant w id s)
  unfolding activate_tenant get_tenant transition create_audit_entry running Repo.get_by_id
      AuditEntries.save audit_entry
  activate_tenant-Moves = elim (Option-cases (lookup id s.tenants.store)) [
    | inl e ↦ rw e (missing e)
    | inr (t, e) ↦ elim (Bool-cases (validate_transition t.status active)) [
      | inl v ↦ moved t _ e v (
          rw (e, v)
            (record {
              changed = _;
              renamed = refl;
              returned = refl;
              written = refl;
              entry = _;
              logged = refl;
              about = refl;
              kind = refl;
              users = refl;
              tokens = refl;
              jobs = refl;
              policies = refl;
              cache = refl;
            }))
      | inr v ↦ rw (e, v) (refused t e v)
    ]
  ]

  -- An unknown tenant and a transition that is not valid are refused, with the container unchanged;
  -- otherwise the tenant is stored and returned as DEPROVISIONING, exactly one entry is logged for
  -- it, and users, tokens, jobs, policies and cache stay.
  pub deprovision_tenant-Moves :
      Moves w id deprovisioning tenant_deleted s (deprovision_tenant w id s)
  unfolding deprovision_tenant get_tenant transition create_audit_entry running Repo.get_by_id
      AuditEntries.save audit_entry
  deprovision_tenant-Moves = elim (Option-cases (lookup id s.tenants.store)) [
    | inl e ↦ rw e (missing e)
    | inr (t, e) ↦ elim (Bool-cases (validate_transition t.status deprovisioning)) [
      | inl v ↦ moved t _ e v (
          rw (e, v)
            (record {
              changed = _;
              renamed = refl;
              returned = refl;
              written = refl;
              entry = _;
              logged = refl;
              about = refl;
              kind = refl;
              users = refl;
              tokens = refl;
              jobs = refl;
              policies = refl;
              cache = refl;
            }))
      | inr v ↦ rw (e, v) (refused t e v)
    ]
  ]
