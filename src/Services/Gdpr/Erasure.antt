-- ===== src/Services/Gdpr/Erasure.antt =====
-- How `execute_erasure` ends, whatever state the tenant is in.
use eu_saas.Prelude.{String, ◌≡◌, refl, ℕ, some, lookup, nat_eq, [], ◌∷◌, ◌++◌, lookup-insert_self}
use eu_saas.Domain.Values.{Uuid}
use eu_saas.Domain.Tenant.{Tenant, TenantStatus, active, suspended, deleted}
use eu_saas.Domain.Audit.{AuditEntry, audit_entry, data_erased}
use eu_saas.Domain.Errors.{external}
use eu_saas.Domain.Lifecycle.{validate_transition}
use eu_saas.Adapters.Tenants as Repo
use eu_saas.Adapters.AuditEntries
use eu_saas.Adapters.Cache as CacheManager
use eu_saas.Container.{err, Result, ok, Container, World, Reply, running}
use eu_saas.Services.Auditing.{create_audit_entry}
use eu_saas.Services.Tenants.{get_tenant}
use eu_saas.Services.Gdpr.{ErasureResult, execute_erasure, freeze, advance, move_to}

-- An erasure that went through: the tenant is stored as DELETED, its cache is purged, and one
-- entry is logged, which the result names.
pub record IsErased (w : World) (id : Uuid) (n : ℕ) (s : Container)
    (r : Result ErasureResult × Container) : Type 0 where
  tenant : Tenant
  stored : lookup id r.1.tenants.store ≡ some tenant
  state : tenant.status ≡ deleted
  cache : r.1.cache ≡ CacheManager.purge_tenant (w.digest.str_uuid id) s.cache
  entry : AuditEntry
  logged : r.1.audit ≡ s.audit ++ entry ∷ []
  kind : entry.action ≡ data_erased
  report : ErasureResult
  result : r.0 ≡ ok report
  deleted_records : report.records_deleted ≡ n
  named : report.audit_entry_id ≡ entry.id

module _ (w : World) (id : Uuid) (s : Container) (t : Tenant)
    (found : lookup id s.tenants.store ≡ some t) (filed : t.id ≡ id) (n : ℕ)
    (emptied : (k : ℕ) → w.records.cascade_delete_all k id ≡ Reply.returned n)
    (dropped : (k : ℕ) → w.schemas.drop_schema k t.schema_name ≡ Reply.returned tt) where
  IsErased-from :
      (status : TenantStatus) → t.status ≡ status → IsErased w id n s (execute_erasure w id s)
  unfolding execute_erasure get_tenant freeze advance move_to create_audit_entry running
      Repo.get_by_id Repo.update AuditEntries.save audit_entry validate_transition
  IsErased-from deleted e =
      rw (found, e, emptied, dropped)
        (record {
          tenant = t;
          stored = found;
          state = e;
          cache = refl;
          entry = _;
          logged = refl;
          kind = refl;
          report = _;
          result = refl;
          deleted_records = refl;
          named = refl;
        })
  IsErased-from _ e =
      rw (found, e, emptied, dropped, filed)
        (record {
          tenant = _;
          stored = lookup-insert_self _ _ _;
          state = refl;
          cache = refl;
          entry = _;
          logged = refl;
          kind = refl;
          report = _;
          result = refl;
          deleted_records = refl;
          named = refl;
        })

  -- A tenant that is stored under its id, in any status: if the cascade and the dropping of the
  -- schema return, it ends as DELETED with its cache purged and one DATA_ERASED entry logged, whose
  -- id is returned with the number of deleted records.
  pub execute_erasure-IsErased : IsErased w id n s (execute_erasure w id s)
  execute_erasure-IsErased = IsErased-from t.status refl

-- An erasure that broke off: the error is that of the port, the tenant is stored as SUSPENDED, and
-- nothing is logged or purged.
pub record IsAborted (id : Uuid) (message : String) (s : Container)
    (r : Result ErasureResult × Container) : Type 0 where
  tenant : Tenant
  stored : lookup id r.1.tenants.store ≡ some tenant
  state : tenant.status ≡ suspended
  cache : r.1.cache ≡ s.cache
  log : r.1.audit ≡ s.audit
  result : r.0 ≡ err (external message)

-- If an ACTIVE tenant is stored under its id and the cascade raises, execute_erasure raises that
-- error, leaves the tenant stored as SUSPENDED, and neither logs nor purges anything.
pub execute_erasure-IsAborted :
    (w : World) (id : Uuid) (s : Container) (t : Tenant) (message : String)
    → lookup id s.tenants.store ≡ some t
    → t.id ≡ id
    → t.status ≡ active
    → ((k : ℕ) → w.records.cascade_delete_all k id ≡ Reply.raised message)
    → IsAborted id message s (execute_erasure w id s)
unfolding execute_erasure get_tenant freeze move_to running Repo.get_by_id Repo.update
    validate_transition
execute_erasure-IsAborted w id s t message found filed on failed =
    rw (found, on, failed, filed)
      (record {
        tenant = _;
        stored = lookup-insert_self _ _ _;
        state = refl;
        cache = refl;
        log = refl;
        result = refl;
      })
