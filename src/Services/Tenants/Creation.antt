-- ===== src/Services/Tenants/Creation.antt =====
-- `create_tenant`, with its rollback, and `update_tenant`, and the registry of tenants.
use eu_saas.Prelude.{
  sym, subst, ◌≡◌, refl, String, Option, some, List, [], ◌∷◌, lookup, nat_eq, string_eq,
}
use eu_saas.Domain.Values.{Time, Uuid, Attributes}
use eu_saas.Domain.Tenant.{Tenant, pending, provisioning, deleted, active}
use eu_saas.Domain.Errors.{Error}
use eu_saas.Domain.Lifecycle.{validate_transition}
use eu_saas.Domain.Lifecycle.Order.{Reaches, here, next}
use eu_saas.Adapters.Tenants as Repo
use eu_saas.Container.{Container, World, running, call}
use eu_saas.Container.Follows.{Follows, call-Follows, call_port-Follows}
use eu_saas.Container.Holds.{
  call-Holds, gets-Holds, forget-Holds, Holds, >>=-Holds, try_except-Holds, raise_if-Holds,
  modify-Holds,
}
use eu_saas.Services.Registry.{
  AreDistinct, IsConsistent, Succeeds, Succeeds-refl, Succeeds-trans, Evolution, Evolution-preorder,
  Leaves, Leaves-preorder, leave_rules,
}
use eu_saas.Services.Registry.Writes.{IsStored, IsStored-of_Leaves}
use eu_saas.Services.Registry.Additions.{
  IsNew-of_Leaves, draw-IsNew, get_by_slug-free, save_tenant-Evolves,
}
use eu_saas.Services.Tenants.Steps.{
  leave-Holds, rest-Holds, get_tenant-Holds, write-Holds, transition-Holds, Holds→Evolution,
}
use eu_saas.Services.Tenants.{
  Update, set_field, set_fields, get_tenant, provision, roll_back, create_tenant, update_tenant,
}

set_field-Succeeds : (u : Update) (t : Tenant) → Succeeds t (set_field u t)
set_field-Succeeds (Update.set_name name) t = search (refl, here)
set_field-Succeeds (Update.set_settings settings) t = search (refl, here)
set_field-Succeeds (Update.set_metadata metadata) t = search (refl, here)
set_field-Succeeds (Update.other k) t = Succeeds-refl t

-- The updates change no field that identifies a tenant, nor its status.
set_fields-Succeeds : (updates : List Update) (t : Tenant) → Succeeds t (set_fields updates t)
set_fields-Succeeds [] t = Succeeds-refl t
set_fields-Succeeds (u ∷ updates) t =
    Succeeds-trans t (set_field u t) (set_fields updates (set_field u t)) (set_field-Succeeds u t)
      (set_fields-Succeeds updates (set_field u t))

touched-Succeeds :
    (t u : Tenant) (now : Time) → Succeeds t u → Succeeds t (record u { updated_at = now })
touched-Succeeds t u now h = record {
  id = h.id;
  slug = h.slug;
  schema_name = h.schema_name;
  owner_email = h.owner_email;
  created_at = h.created_at;
  status = h.status;
}

-- The tenant that is being provisioned has not left that stage.
record CanReset (w : World) (id : Uuid) (s : Container) : Type 0 where
  consistent : IsConsistent w s
  before : Tenant
  found : lookup id s.tenants.store ≡ some before
  path : Reaches before.status provisioning

module _ (w : World) where
  pub update_tenant-Evolution :
      (tenant_id : Uuid) (updates : List Update)
      → Follows (Evolution w) (update_tenant w tenant_id updates)
  unfolding update_tenant
  update_tenant-Evolution tenant_id updates =
      let p = Evolution-preorder w in
      Holds→Evolution w _ (
        >>=-Holds p _ _ (get_tenant-Holds w tenant_id) λ t.
          >>=-Holds p _ _
            (leave-Holds w (call w.now) (call-Follows Leaves-preorder w.now)
              (λ s s' l pre. (IsStored-of_Leaves w t s s' l pre.0, pre.1)) (λ s pre. tt))
            λ now.
              >>=-Holds p _ _
                (write-Holds w (record (set_fields updates t) { updated_at = now })
                  λ s pre. record {
                    consistent = pre.0.consistent;
                    before = t;
                    found =
                        subst (λ k. lookup k s.tenants.store ≡ some t)
                          (sym (set_fields-Succeeds updates t).id) pre.0.found;
                    step =
                        touched-Succeeds t (set_fields updates t) now
                          (set_fields-Succeeds updates t);
                  })
                λ _. rest-Holds w _ (search leave_rules))

  stored→CanReset :
      (t : Tenant) (s : Container)
      → IsStored w t s
      → Reaches t.status provisioning
      → CanReset w t.id s
  stored→CanReset t s stored path = record {
    consistent = stored.consistent;
    before = t;
    found = stored.found;
    path = path;
  }

  started→CanReset :
      (t c : Tenant) (s : Container)
      → IsStored w c s × (c.id ≡ t.id) × (c.status ≡ provisioning)
      → CanReset w t.id s
  started→CanReset t c s (stored, same, now) =
      subst (λ k. CanReset w k s) same (stored→CanReset c s stored (rw now here))

  started-stable :
      (t c : Tenant) (s s' : Container)
      → Leaves s s'
      → IsStored w c s × (c.id ≡ t.id) × (c.status ≡ provisioning)
      → IsStored w c s' × (c.id ≡ t.id) × (c.status ≡ provisioning)
  started-stable t c s s' l (stored, same, now) = (IsStored-of_Leaves w c s s' l stored, same, now)

  provision-Holds :
      (t : Tenant)
      → t.status ≡ pending
      → Holds (Evolution w) (IsStored w t) (provision w t) (λ _ s. Unit) (CanReset w t.id)
  unfolding provision validate_transition
  provision-Holds t new =
      let p = Evolution-preorder w in
      >>=-Holds p _ _
        (transition-Holds w t provisioning (IsStored-of_Leaves w t) (λ s stored. stored)
          λ s stored. stored→CanReset t s stored (rw new (next here provisioning refl)))
        λ c.
          >>=-Holds p _ _
            (leave-Holds w _ (call_port-Follows Leaves-preorder _) (started-stable t c)
              (started→CanReset t c))
            λ _.
              >>=-Holds p _ _
                (leave-Holds w _ (call_port-Follows Leaves-preorder _) (started-stable t c)
                  (started→CanReset t c))
                λ _. forget-Holds p _ (
                  transition-Holds w c active (started-stable t c) (λ s pre. pre.0)
                    (started→CanReset t c))

  reload-Holds :
      (id : Uuid)
      → Holds
          (Evolution w)
          (CanReset w id)
          (get_tenant id)
          (λ t s. IsStored w t s × Reaches t.status provisioning)
          (λ s. Unit)
  unfolding get_tenant running Repo.get_by_id
  reload-Holds id = record {
    at = λ s pre. rw pre.found (
      (Evolution-preorder w).reflexive s,
      (
        record {
          consistent = pre.consistent;
          found =
              subst (λ k. lookup k s.tenants.store ≡ some pre.before)
                (sym (pre.consistent.filed id pre.before pre.found)) pre.found;
        },
        pre.path,
      ),
    );
  }

  roll_back-Holds :
      (id : Uuid) (e : Error)
      → Holds (Evolution w) (CanReset w id) (roll_back w id e) (λ _ s. Unit) (λ s. Unit)
  unfolding roll_back
  roll_back-Holds id e =
      let p = Evolution-preorder w in
      >>=-Holds p _ _
        (try_except-Holds p _ _
          (>>=-Holds p _ _ (reload-Holds id) λ t.
            >>=-Holds p _ _
              (write-Holds w (record t { status = provisioning })
                λ s pre. record {
                  consistent = pre.0.consistent;
                  before = t;
                  found = pre.0.found;
                  step = record {
                    id = refl;
                    slug = refl;
                    schema_name = refl;
                    owner_email = refl;
                    created_at = refl;
                    status = pre.1;
                  };
                })
              λ _.
                >>=-Holds p _ _
                  (transition-Holds w (record t { status = provisioning }) deleted
                    (IsStored-of_Leaves w (record t { status = provisioning })) (λ s pre. pre)
                    (λ s pre. tt))
                  λ c. rest-Holds w _ (search leave_rules))
          (λ _. rest-Holds w _ (search leave_rules)))
        (λ _. rest-Holds w _ (search leave_rules))

  pub create_tenant-Evolution :
      AreDistinct w
      → (name slug owner_email : String) (settings : Option Attributes)
      → Follows (Evolution w) (create_tenant w name slug owner_email settings)
  unfolding create_tenant
  create_tenant-Evolution distinct name slug owner_email settings =
      let p = Evolution-preorder w in
      Holds→Evolution w _ (
        >>=-Holds p _ _ (gets-Holds p _) λ existing.
          >>=-Holds p _ _ (raise_if-Holds p _ _ (λ s pre. tt)) λ _.
            >>=-Holds p _ _
              (call-Holds p w.uuid4 λ s pre.
                draw-IsNew w slug s distinct pre.0.0
                  (get_by_slug-free w slug s pre.0.0 (rw (← pre.0.1) pre.1)))
              λ id.
                >>=-Holds p _ _
                  (leave-Holds w _ (call-Follows Leaves-preorder _) (IsNew-of_Leaves w id slug)
                    (λ s pre. tt))
                  λ created_at.
                    >>=-Holds p _ _
                      (leave-Holds w _ (call-Follows Leaves-preorder _) (IsNew-of_Leaves w id slug)
                        (λ s pre. tt))
                      λ updated_at.
                        >>=-Holds p _ _ (modify-Holds p _ (save_tenant-Evolves w _)) λ _.
                          >>=-Holds p _ _
                            (try_except-Holds p _ _ (provision-Holds _ refl) (roll_back-Holds id))
                            λ c. rest-Holds w _ (search leave_rules))
