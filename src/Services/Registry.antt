-- ===== src/Services/Registry.antt =====
-- The tenant registry that the services share: what is always true of it, and how it may change.
pub mod Writes
pub mod Additions
use eu_saas.Domain.Audit.{AuditAction}
use eu_saas.Services.Auditing.{create_audit_entry}
use eu_saas.Services.Respect.{Respects}
use eu_saas.Prelude.{
  ℕ, ◌+◌, ◌≤◌, ◌<◌, ◌≡◌, refl, sym, ◌∙◌, subst, String, some, nat_eq, string_eq, lookup, arith,
}
use eu_saas.Domain.Values.{Attributes, Uuid, Time}
use eu_saas.Domain.Tenant.{Tenant}
use eu_saas.Domain.Lifecycle.Order.{Reaches, here, Reaches-trans}
use eu_saas.Container.{running, Action, Container, World}
use eu_saas.Container.Follows.{follow_rules, Follows, Preorder}

-- No two calls of `uuid4` return the same UUID.
abbrev pub AreDistinct : World → Type 0
AreDistinct w = (m n : ℕ) → w.uuid4 m ≡ w.uuid4 n → m ≡ n

-- Every tenant is filed under its id, which was drawn from `uuid4`, and under its slug; the slug
-- index points to tenants of that slug.
pub record IsConsistent (w : World) (s : Container) : Type 0 where
  pub filed : (k : Uuid) (t : Tenant) → lookup k s.tenants.store ≡ some t → t.id ≡ k
  pub drawn :
      (k : Uuid) (t : Tenant)
      → lookup k s.tenants.store ≡ some t
      → (n : ℕ) × (n < s.calls) × (w.uuid4 n ≡ k)
  pub indexed :
      (k : Uuid) (t : Tenant)
      → lookup k s.tenants.store ≡ some t
      → lookup t.slug s.tenants.by_slug ≡ some k
  pub pointing :
      (slug : String) (k : Uuid)
      → lookup slug s.tenants.by_slug ≡ some k
      → (t : Tenant) × (lookup k s.tenants.store ≡ some t) × (t.slug ≡ slug)

-- What may become of a tenant: its identity stays, and its status moves along the lifecycle.
pub record Succeeds (t u : Tenant) : Type 0 where
  pub id : u.id ≡ t.id
  pub slug : u.slug ≡ t.slug
  pub schema_name : u.schema_name ≡ t.schema_name
  pub owner_email : u.owner_email ≡ t.owner_email
  pub created_at : u.created_at ≡ t.created_at
  pub status : Reaches t.status u.status

pub Succeeds-refl : (t : Tenant) → Succeeds t t
Succeeds-refl t = record {
  id = refl;
  slug = refl;
  schema_name = refl;
  owner_email = refl;
  created_at = refl;
  status = here;
}

pub Succeeds-trans : (t u v : Tenant) → Succeeds t u → Succeeds u v → Succeeds t v
Succeeds-trans t u v p q = record {
  id = q.id ∙ p.id;
  slug = q.slug ∙ p.slug;
  schema_name = q.schema_name ∙ p.schema_name;
  owner_email = q.owner_email ∙ p.owner_email;
  created_at = q.created_at ∙ p.created_at;
  status = Reaches-trans p.status q.status;
}

-- The registry is consistent afterwards, and each tenant has a successor in it.
pub record Evolves (w : World) (s t : Container) : Type 0 where
  pub counted : s.calls ≤ t.calls
  pub consistent : IsConsistent w t
  pub successor :
      (k : Uuid) (u : Tenant)
      → lookup k s.tenants.store ≡ some u
      → (v : Tenant) × (lookup k t.tenants.store ≡ some v) × Succeeds u v

-- What actions follow: a consistent registry evolves.
abbrev pub Evolution : World → Container → Container → Type 0
Evolution w s t = IsConsistent w s → Evolves w s t

-- A change elsewhere, and further calls.
pub record Leaves (s t : Container) : Type 0 where
  pub later : s.calls ≤ t.calls
  pub same : t.tenants ≡ s.tenants

pub Leaves-preorder : Preorder Leaves
Leaves-preorder = record {
  reflexive = λ s. record { later = omega arith; same = refl };
  transitive =
      λ s t u p q. record { later = omega (arith, p.later, q.later); same = q.same ∙ p.same };
  calling = λ s. record { later = omega arith; same = refl };
}

pub IsConsistent-of_Leaves :
    (w : World) (s t : Container) → Leaves s t → IsConsistent w s → IsConsistent w t
IsConsistent-of_Leaves w s t l c = record {
  filed = rw l.same c.filed;
  drawn =
      rw l.same
        λ k u e. let (n, below, drawn) = c.drawn k u e in (n, omega (arith, l.later), drawn);
  indexed = rw l.same c.indexed;
  pointing = rw l.same c.pointing;
}

pub Evolution-of_Leaves : (w : World) (s t : Container) → Leaves s t → Evolution w s t
Evolution-of_Leaves w s t l c = record {
  counted = l.later;
  consistent = IsConsistent-of_Leaves w s t l c;
  successor = λ k u e. (u, rw l.same e, Succeeds-refl u);
}

Evolves-trans : (w : World) (s t u : Container) → Evolves w s t → Evolves w t u → Evolves w s u
Evolves-trans w s t u p q = record {
  counted = omega (arith, p.counted, q.counted);
  consistent = q.consistent;
  successor = λ k x e.
      let (y, found, first) = p.successor k x e in
      let (z, found', second) = q.successor k y found in
      (z, found', Succeeds-trans x y z first second);
}

pub Evolution-preorder : (w : World) → Preorder (Evolution w)
Evolution-preorder w = record {
  reflexive = λ s. Evolution-of_Leaves w s s (Leaves-preorder.reflexive s);
  transitive = λ s t u p q c. Evolves-trans w s t u (p c) (q (p c).consistent);
  calling =
      λ s. Evolution-of_Leaves w s (record s { calls = s.calls + 1 }) (Leaves-preorder.calling s);
}

module _ (w : World) where
  pub create_audit_entry-Leaves :
      (tenant_id : Uuid) (action : AuditAction) (actor_id : Uuid) (details : Attributes)
      → Follows Leaves (create_audit_entry w tenant_id action actor_id details)
  unfolding create_audit_entry running
  create_audit_entry-Leaves tenant_id action actor_id details = record {
    at = λ s. record { later = omega arith; same = refl };
  }

  pub Leaves-Respects : Respects w Leaves
  Leaves-Respects = record {
    preorder = Leaves-preorder;
    elsewhere = λ s t same _ calls. record { later = omega arith; same = same };
    auditing = create_audit_entry-Leaves;
  }

  -- What leaves the registry alone is an evolution.
  pub Leaves→Evolution : {A : Type 0} (m : Action A) → Follows Leaves m → Follows (Evolution w) m
  Leaves→Evolution m h = record { at = λ s. Evolution-of_Leaves w s (m s).1 (h.at s) }

  pub Evolution-Respects : Respects w (Evolution w)
  Evolution-Respects = record {
    preorder = Evolution-preorder w;
    elsewhere = λ s t same audit calls.
        Evolution-of_Leaves w s t (Leaves-Respects.elsewhere s t same audit calls);
    auditing = λ tenant_id action actor_id details.
        Leaves→Evolution _ (create_audit_entry-Leaves tenant_id action actor_id details);
  }

pub ruleset leave_rules = (follow_rules, Leaves-preorder, create_audit_entry-Leaves)
