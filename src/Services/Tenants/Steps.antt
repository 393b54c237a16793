-- ===== src/Services/Tenants/Steps.antt =====
-- The steps of which the methods that move a tenant are made: each is an evolution of the registry,
-- and leaves the registry with the value that it returns.
use eu_saas.Prelude.{sym, subst, ◌≡◌, refl, inl, inr, Option-cases, some, nat_eq, lookup, arith}
use eu_saas.Domain.Values.{Uuid}
use eu_saas.Domain.Tenant.{Tenant, TenantStatus}
use eu_saas.Domain.Lifecycle.Order.{here, next}
use eu_saas.Adapters.Tenants as Repo
use eu_saas.Container.{err, ok, Result, Container, World, Action, running, call, modify}
use eu_saas.Container.Follows.{Follows, call-Follows}
use eu_saas.Container.Holds.{
  Ends, weaken-Holds, Ends, Holds, >>=-Holds, frame-Holds, raise_if-Holds, pure-Holds, modify-Holds,
}
use eu_saas.Services.Registry.{
  IsConsistent, Evolution, Evolution-preorder, Evolution-of_Leaves, Leaves, Leaves-preorder,
}
use eu_saas.Services.Registry.Writes.{IsStored, CanBecome, update_stored-Evolves}
use eu_saas.Services.Tenants.{update_stored, get_tenant, transition}

-- A condition that only the registry and further calls bear on.
abbrev pub IsStable : (Container → Type 0) → Type 0
IsStable P = (s t : Container) → Leaves s t → P s → P t

module _ (w : World) where
  -- An action that leaves the registry alone keeps such a condition.
  pub leave-Holds :
      {A : Type 0} {P : Container → Type 0} {E : Container → Type 0} (m : Action A)
      → Follows Leaves m
      → IsStable P
      → ((s : Container) → P s → E s)
      → Holds (Evolution w) P m (λ _. P) E
  leave-Holds m follows stable fails =
      frame-Holds (Evolution-preorder w) m follows (Evolution-of_Leaves w) stable fails

  -- The end of a method, of which nothing more is asked.
  pub rest-Holds :
      {A : Type 0} {P : Container → Type 0} (m : Action A)
      → Follows Leaves m
      → Holds (Evolution w) P m (λ _ s. Unit) (λ s. Unit)
  rest-Holds m follows =
      weaken-Holds (Evolution-preorder w) m (λ s pre. tt)
        (leave-Holds m follows (λ s t l pre. tt) (λ s pre. tt))

  pub get_tenant-Holds :
      (tenant_id : Uuid)
      → Holds
          (Evolution w)
          (IsConsistent w)
          (get_tenant tenant_id)
          (λ t s. IsStored w t s × (t.id ≡ tenant_id))
          (λ s. Unit)
  unfolding get_tenant running Repo.get_by_id
  get_tenant-Holds tenant_id = record {
    at = λ s c. elim (Option-cases (lookup tenant_id s.tenants.store)) [
      | inl missing ↦ rw missing ((Evolution-preorder w).reflexive s, tt)
      | inr (t, e) ↦ rw e (
        (Evolution-preorder w).reflexive s,
        (
          record {
            consistent = c;
            found = subst (λ k. lookup k s.tenants.store ≡ some t) (sym (c.filed tenant_id t e)) e;
          },
          c.filed tenant_id t e,
        ),
      )
    ];
  }

  -- A successor of what is stored is written back.
  pub write-Holds :
      {P E : Container → Type 0} (c : Tenant)
      → ((s : Container) → P s → CanBecome w c s)
      → Holds (Evolution w) P (modify (update_stored c)) (λ _. IsStored w c) E
  write-Holds c h =
      modify-Holds (Evolution-preorder w) (update_stored c)
        (λ s pre. update_stored-Evolves w c s (h s pre))

  -- After a transition the registry holds the tenant in its new status; after a refused one it is
  -- as before.
  pub transition-Holds :
      {P E : Container → Type 0} (t : Tenant) (status : TenantStatus)
      → IsStable P
      → ((s : Container) → P s → IsStored w t s)
      → ((s : Container) → P s → E s)
      → Holds
          (Evolution w)
          P
          (transition w t status)
          (λ c s. IsStored w c s × (c.id ≡ t.id) × (c.status ≡ status))
          E
  unfolding transition
  transition-Holds t status stable stored fails =
      let p = Evolution-preorder w in
      >>=-Holds p _ _ (raise_if-Holds p _ _ fails) λ _.
        >>=-Holds p _ _
          (leave-Holds (call w.now) (call-Follows Leaves-preorder w.now)
            (λ s s' l pre. (stable s s' l pre.0, pre.1)) (λ s pre. fails s pre.0))
          λ now.
            >>=-Holds p _ _
              (write-Holds _ λ s pre. record {
                consistent = (stored s pre.0).consistent;
                before = t;
                found = (stored s pre.0).found;
                step = record {
                  id = refl;
                  slug = refl;
                  schema_name = refl;
                  owner_email = refl;
                  created_at = refl;
                  status = next here status (ground (arith, pre.1));
                };
              })
              λ _. pure-Holds p _ (λ s written. (written, refl, refl))

-- From a consistent registry on, an action evolves it: as a relation of all containers.
evolves :
    {A : Type 0} (Q : A → Container → Type 0) (E : Container → Type 0) (w : World) (s : Container)
    (r : Result A × Container)
    → (IsConsistent w s → Ends (Evolution w) s Q E r)
    → Evolution w s r.1
evolves Q E w s (ok a, t) h c = (h c).0 c
evolves Q E w s (err e, t) h c = (h c).0 c

pub Holds→Evolution :
    {A : Type 0} {Q : A → Container → Type 0} {E : Container → Type 0} (w : World) (m : Action A)
    → Holds (Evolution w) (IsConsistent w) m Q E
    → Follows (Evolution w) m
Holds→Evolution {Q = Q} {E = E} w m h = record { at = λ s. evolves Q E w s (m s) (h.at s) }
