-- ===== src/Tasks/Effects.antt =====
-- What the other tasks follow, also when they raise.
use eu_saas.Prelude.{none, refl, String, List, [], ◌∷◌}
use eu_saas.Domain.Values.{Uuid}
use eu_saas.Domain.Tenant.{Tenant}
use eu_saas.Container.{modify, Container, World}
use eu_saas.Container.Follows.{Follows, >>=-Follows}
use eu_saas.Services.Respect.{Respects, write-Follows, respect_rules}
use eu_saas.Services.Gdpr.Effects.{run_retention_cleanup-Follows}
use eu_saas.Tasks.{
  in_progress, Sweep, update_job, active_tenants, run_tenant_migrations, clean_one, clean_all,
  run_retention_cleanup_all, export_tenant_data_task,
}

module _ (w : World) {R : Container → Container → Type 0} (r : Respects w R) where
  pub run_tenant_migrations-Follows :
      (tenant_slug : String) → Follows R (run_tenant_migrations w tenant_slug)
  unfolding run_tenant_migrations
  run_tenant_migrations-Follows tenant_slug = search respect_rules

  clean_one-Follows : (sweep : Sweep) (t : Tenant) → Follows R (clean_one w sweep t)
  unfolding clean_one
  clean_one-Follows sweep t = search (respect_rules, run_retention_cleanup-Follows)

  clean_all-Follows :
      (sweep : Sweep) (tenants : List Tenant) → Follows R (clean_all w sweep tenants)
  unfolding clean_all
  clean_all-Follows sweep [] = search respect_rules
  clean_all-Follows sweep (t ∷ tenants) =
      >>=-Follows r.preorder (clean_one w sweep t) (λ next. clean_all w next tenants)
        (clean_one-Follows sweep t) (λ next. clean_all-Follows next tenants)

  pub run_retention_cleanup_all-Follows : Follows R (run_retention_cleanup_all w)
  unfolding run_retention_cleanup_all active_tenants
  run_retention_cleanup_all-Follows = search (respect_rules, clean_all-Follows)

  pub export_tenant_data_task-Follows :
      (tenant_id : Uuid) (job_id : String) → Follows R (export_tenant_data_task tenant_id job_id)
  unfolding export_tenant_data_task
  export_tenant_data_task-Follows tenant_id job_id =
      >>=-Follows r.preorder (modify (update_job job_id in_progress none none)) _
        (write-Follows r _ (λ s. refl) (λ s. refl) (λ s. refl))
        (λ _. write-Follows r _ (λ s. refl) (λ s. refl) (λ s. refl))
