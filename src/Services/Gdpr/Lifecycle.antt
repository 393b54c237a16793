-- ===== src/Services/Gdpr/Lifecycle.antt =====
-- `execute_erasure` and the registry of tenants, step by step.
use eu_saas.Prelude.{refl, Bool, true, false, ◌≡◌, if◌then◌else◌, ◌==◌, arith}
use eu_saas.Domain.Values.{Uuid}
use eu_saas.Domain.Tenant.{
  Tenant, TenantStatus, active, suspended, deprovisioning, deleted, status_eq,
}
use eu_saas.Domain.Lifecycle.{validate_transition}
use eu_saas.Domain.Lifecycle.Order.{here, next}
use eu_saas.Container.{Container, World, Action, call}
use eu_saas.Container.Follows.{Follows, call-Follows, call_port-Follows}
use eu_saas.Container.Holds.{Holds, >>=-Holds, raise_if-Holds, pure-Holds, weaken-Holds}
use eu_saas.Services.Registry.{
  Evolution, Evolution-preorder, Leaves, Leaves-preorder, Leaves-Respects, leave_rules,
  create_audit_entry-Leaves,
}
use eu_saas.Services.Registry.Writes.{IsStored, IsStored-of_Leaves}
use eu_saas.Services.Tenants.Steps.{
  leave-Holds, rest-Holds, get_tenant-Holds, write-Holds, Holds→Evolution,
}
use eu_saas.Services.Gdpr.Effects.{save_job-Follows, purge-Follows}
use eu_saas.Services.Gdpr.{move_to, freeze, advance, execute_erasure}

-- A test selects one of two actions.
if-Holds :
    {A : Type 0} {R : Container → Container → Type 0} {P E : Container → Type 0}
    {Q : A → Container → Type 0} (b : Bool) (m n : Action A)
    → (b ≡ true → Holds R P m Q E)
    → (b ≡ false → Holds R P n Q E)
    → Holds R P (if b then m else n) Q E
if-Holds true m n h k = h refl
if-Holds false m n h k = k refl

-- The check before an active tenant is suspended always passes.
active-valid :
    (status : TenantStatus)
    → (status == active) ≡ true
    → validate_transition status suspended ≡ true
unfolding validate_transition
active-valid TenantStatus.active e = refl
active-valid TenantStatus.pending e = ground arith
active-valid TenantStatus.provisioning e = ground arith
active-valid TenantStatus.suspended e = ground arith
active-valid TenantStatus.deprovisioning e = ground arith
active-valid TenantStatus.deleted e = ground arith

module _ (w : World) where
  -- What leaves the registry alone leaves the tenant where it is.
  pub keep-Holds :
      {A : Type 0} (t : Tenant) (m : Action A)
      → Follows Leaves m
      → Holds (Evolution w) (IsStored w t) m (λ _. IsStored w t) (λ s. Unit)
  keep-Holds t m follows = leave-Holds w m follows (IsStored-of_Leaves w t) (λ s pre. tt)

  move_to-Holds :
      (t : Tenant) (status : TenantStatus)
      → validate_transition t.status status ≡ true
      → Holds (Evolution w) (IsStored w t) (move_to w status t) (λ c. IsStored w c) (λ s. Unit)
  unfolding move_to
  move_to-Holds t status valid =
      let p = Evolution-preorder w in
      >>=-Holds p _ _ (keep-Holds t (call w.now) (call-Follows Leaves-preorder w.now)) λ now.
        >>=-Holds p _ _
          (write-Holds w _ λ s pre. record {
            consistent = pre.consistent;
            before = t;
            found = pre.found;
            step = record {
              id = refl;
              slug = refl;
              schema_name = refl;
              owner_email = refl;
              created_at = refl;
              status = next here status valid;
            };
          })
          λ _. pure-Holds p _ (λ s written. written)

  freeze-Holds :
      (t : Tenant) → Holds (Evolution w) (IsStored w t) (freeze w t) (λ c. IsStored w c) (λ s. Unit)
  unfolding freeze
  freeze-Holds t =
      let p = Evolution-preorder w in
      if-Holds (t.status == active) _ _
        (λ it. >>=-Holds p _ _ (raise_if-Holds p _ _ (λ s pre. tt)) λ _.
          weaken-Holds p _ (λ s pre. pre.0) (move_to-Holds t suspended (active-valid t.status it)))
        (λ _. pure-Holds p t (λ s pre. pre))

  advance-Holds :
      (t : Tenant) (status : TenantStatus)
      → Holds (Evolution w) (IsStored w t) (advance w status t) (λ c. IsStored w c) (λ s. Unit)
  unfolding advance
  advance-Holds t status =
      if-Holds (validate_transition t.status status) _ _ (move_to-Holds t status)
        (λ _. pure-Holds (Evolution-preorder w) t (λ s pre. pre))

  pub execute_erasure-Evolution :
      (tenant_id : Uuid) → Follows (Evolution w) (execute_erasure w tenant_id)
  unfolding execute_erasure
  execute_erasure-Evolution tenant_id =
      let p = Evolution-preorder w in
      Holds→Evolution w _ (
        >>=-Holds p _ _ (get_tenant-Holds w tenant_id) λ t.
          >>=-Holds p _ _ (weaken-Holds p _ (λ s pre. pre.0) (freeze-Holds t)) λ c.
            >>=-Holds p _ _ (keep-Holds c _ (call-Follows Leaves-preorder _)) λ job.
              >>=-Holds p _ _ (keep-Holds c _ (call-Follows Leaves-preorder _)) λ created_at.
                >>=-Holds p _ _ (keep-Holds c _ (save_job-Follows w (Leaves-Respects w) _ _ _)) λ _.
                  >>=-Holds p _ _ (keep-Holds c _ (call_port-Follows Leaves-preorder _)) λ records.
                    >>=-Holds p _ _ (keep-Holds c _ (call_port-Follows Leaves-preorder _)) λ _.
                      >>=-Holds p _ _ (keep-Holds c _ (purge-Follows w (Leaves-Respects w) _)) λ _.
                        >>=-Holds p _ _ (keep-Holds c _ (create_audit_entry-Leaves w _ _ _ _))
                          λ entry. >>=-Holds p _ _ (advance-Holds c deprovisioning) λ leaving.
                            >>=-Holds p _ _ (advance-Holds leaving deleted)
                              λ gone. rest-Holds w _ (search leave_rules))
