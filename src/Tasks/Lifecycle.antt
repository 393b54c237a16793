-- ===== src/Tasks/Lifecycle.antt =====
-- The tasks that write tenants, and the registry of tenants.
use eu_saas.Prelude.{Bool, true, false, ◌==◌}
use eu_saas.Domain.Values.{Uuid}
use eu_saas.Domain.Tenant.{
  Tenant, TenantStatus, pending, provisioning, active, deprovisioning, deleted, status_eq,
}
use eu_saas.Container.{Container, World, Action, when}
use eu_saas.Container.Follows.{Follows, call_port-Follows}
use eu_saas.Container.Holds.{Holds, >>=-Holds, pure-Holds, weaken-Holds}
use eu_saas.Services.Respect.{respect_rules}
use eu_saas.Services.Registry.{
  IsConsistent, IsConsistent-of_Leaves, Evolution, Evolution-preorder, Leaves, Leaves-preorder,
  Leaves-Respects, leave_rules,
}
use eu_saas.Services.Registry.Writes.{IsStored, IsStored-of_Leaves}
use eu_saas.Services.Tenants.Steps.{
  leave-Holds, rest-Holds, get_tenant-Holds, transition-Holds, Holds→Evolution,
}
use eu_saas.Services.Gdpr.Effects.{purge-Follows}
use eu_saas.Services.Gdpr.Lifecycle.{keep-Holds, execute_erasure-Evolution}
use eu_saas.Tasks.{
  transition_from, provision_tenant_async, deprovision_tenant_async, execute_erasure_task,
}

module _ (w : World) where
  -- A guarded transition leaves the registry consistent.
  when-Holds :
      {P : Container → Type 0} (b : Bool) (m : Action (Unit {0}))
      → ((s : Container) → P s → IsConsistent w s)
      → Holds (Evolution w) P m (λ _. IsConsistent w) (λ s. Unit)
      → Holds (Evolution w) P (when b m) (λ _. IsConsistent w) (λ s. Unit)
  unfolding when
  when-Holds true m weaker h = h
  when-Holds false m weaker h = pure-Holds (Evolution-preorder w) tt weaker

  transition_from-Holds :
      (from to : TenantStatus) (t : Tenant)
      → Holds
          (Evolution w)
          (IsStored w t)
          (transition_from w from to t)
          (λ _. IsConsistent w)
          (λ s. Unit)
  unfolding transition_from
  transition_from-Holds from to t =
      let p = Evolution-preorder w in
      when-Holds (t.status == from) _ (λ s pre. pre.consistent)
        (>>=-Holds p _ _
          (transition-Holds w t to (IsStored-of_Leaves w t) (λ s pre. pre) (λ s pre. tt))
          λ c. pure-Holds p tt (λ s pre. pre.0.consistent))

  wait-Holds :
      {A : Type 0} (m : Action A)
      → Follows Leaves m
      → Holds (Evolution w) (IsConsistent w) m (λ _. IsConsistent w) (λ s. Unit)
  wait-Holds m follows = leave-Holds w m follows (IsConsistent-of_Leaves w) (λ s pre. tt)

  pub provision_tenant_async-Evolution :
      (tenant_id : Uuid) → Follows (Evolution w) (provision_tenant_async w tenant_id)
  unfolding provision_tenant_async
  provision_tenant_async-Evolution tenant_id =
      let p = Evolution-preorder w in
      Holds→Evolution w _ (
        >>=-Holds p _ _ (get_tenant-Holds w tenant_id) λ t.
          >>=-Holds p _ _
            (weaken-Holds p _ (λ s pre. pre.0) (transition_from-Holds pending provisioning t))
            λ _. >>=-Holds p _ _ (wait-Holds _ (call_port-Follows Leaves-preorder _)) λ _.
              >>=-Holds p _ _ (wait-Holds _ (call_port-Follows Leaves-preorder _)) λ _.
                >>=-Holds p _ _ (get_tenant-Holds w tenant_id) λ u.
                  weaken-Holds p _ (λ s pre. pre.0) (transition_from-Holds provisioning active u))

  pub deprovision_tenant_async-Evolution :
      (tenant_id : Uuid) → Follows (Evolution w) (deprovision_tenant_async w tenant_id)
  unfolding deprovision_tenant_async
  deprovision_tenant_async-Evolution tenant_id =
      let p = Evolution-preorder w in
      Holds→Evolution w _ (
        >>=-Holds p _ _ (get_tenant-Holds w tenant_id) λ t.
          >>=-Holds p _ _
            (weaken-Holds p _ (λ s pre. pre.0)
              (keep-Holds w t _ (call_port-Follows Leaves-preorder _)))
            λ _. >>=-Holds p _ _ (keep-Holds w t _ (purge-Follows w (Leaves-Respects w) _)) λ _.
              >>=-Holds p _ _ (transition_from-Holds deprovisioning deleted t)
                λ _. rest-Holds w _ (search leave_rules))

  pub execute_erasure_task-Evolution :
      (tenant_id : Uuid) → Follows (Evolution w) (execute_erasure_task w tenant_id)
  unfolding execute_erasure_task
  execute_erasure_task-Evolution tenant_id =
      search (respect_rules, Evolution-preorder w, execute_erasure-Evolution)
