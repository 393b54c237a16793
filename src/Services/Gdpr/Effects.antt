-- ===== src/Services/Gdpr/Effects.antt =====
-- What every method of GDPRService but the erasure follows, also when it raises: it writes no
-- tenant, and to the audit log only by `create_audit_entry`.
use eu_saas.Prelude.{ℕ, refl, String, Option, none, some, List, [], ◌∷◌}
use eu_saas.Domain.Values.{Uuid, Time}
use eu_saas.Adapters.Policies.{RetentionPolicy}
use eu_saas.Container.{Container, World, Reply, modify}
use eu_saas.Container.Follows.{Follows}
use eu_saas.Services.Respect.{Respects, write-Follows, respect_rules}
use eu_saas.Services.Tenants.Effects.{get_tenant-Follows, enqueue-Follows}
use eu_saas.Services.Gdpr.{
  save_job, purge, save_policy, export_tenant_data, or_default, get_retention_policy,
  update_retention_policy, delete_some, run_retention_cleanup, get_export_status,
}

module _ (w : World) {R : Container → Container → Type 0} (r : Respects w R) where
  pub save_job-Follows :
      (job_id : String) (tenant_id : Uuid) (now : Time)
      → Follows R (modify (save_job job_id tenant_id now))
  save_job-Follows job_id tenant_id now =
      write-Follows r (save_job job_id tenant_id now) (λ s. refl) (λ s. refl) (λ s. refl)

  pub purge-Follows : (prefix : String) → Follows R (modify (purge prefix))
  purge-Follows prefix = write-Follows r (purge prefix) (λ s. refl) (λ s. refl) (λ s. refl)

  save_policy-Follows : (policy : RetentionPolicy) → Follows R (modify (save_policy policy))
  save_policy-Follows policy =
      write-Follows r (save_policy policy) (λ s. refl) (λ s. refl) (λ s. refl)

  pub export_tenant_data-Follows : (tenant_id : Uuid) → Follows R (export_tenant_data w tenant_id)
  unfolding export_tenant_data
  export_tenant_data-Follows tenant_id =
      search (respect_rules, get_tenant-Follows, save_job-Follows, enqueue-Follows) depth 16

  or_default-Follows :
      (tenant_id : Uuid) (o : Option RetentionPolicy) → Follows R (or_default w tenant_id o)
  unfolding or_default
  or_default-Follows tenant_id none = search respect_rules
  or_default-Follows tenant_id (some policy) = search respect_rules

  pub get_retention_policy-Follows :
      (tenant_id : Uuid) → Follows R (get_retention_policy w tenant_id)
  unfolding get_retention_policy
  get_retention_policy-Follows tenant_id =
      search (respect_rules, get_tenant-Follows, or_default-Follows) depth 9

  pub update_retention_policy-Follows :
      (tenant_id : Uuid) (policy : RetentionPolicy)
      → Follows R (update_retention_policy w tenant_id policy)
  unfolding update_retention_policy
  update_retention_policy-Follows tenant_id policy =
      search (respect_rules, get_tenant-Follows, save_policy-Follows) depth 12

  delete_some-Follows :
      (delete : ℕ → List Uuid → Reply ℕ) (ids : List Uuid) → Follows R (delete_some w delete ids)
  unfolding delete_some
  delete_some-Follows delete [] = search respect_rules
  delete_some-Follows delete (id ∷ ids) = search respect_rules

  pub run_retention_cleanup-Follows :
      (tenant_id : Uuid) → Follows R (run_retention_cleanup w tenant_id)
  unfolding run_retention_cleanup
  run_retention_cleanup-Follows tenant_id =
      search (respect_rules, get_tenant-Follows, get_retention_policy-Follows, delete_some-Follows)
        depth 18

  pub get_export_status-Follows : (job_id : String) → Follows R (get_export_status job_id)
  unfolding get_export_status
  get_export_status-Follows job_id = search respect_rules
