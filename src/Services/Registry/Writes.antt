-- ===== src/Services/Registry/Writes.antt =====
-- A write to the registry of a tenant that it holds.
use native.Mathlib.Decide.{ℕ_discrete}
use eu_saas.Prelude.{
  subst, ◌≡◌, String, some, nat_eq, string_eq, lookup, insert, lookup-insert, lookup-insert_self,
  arith,
}
use eu_saas.Domain.Values.{Uuid}
use eu_saas.Domain.Tenant.{Tenant}
use eu_saas.Adapters.Tenants as Repo
use eu_saas.Container.{Container, World}
use eu_saas.Services.Registry.{
  Leaves, IsConsistent-of_Leaves, Evolution, IsConsistent, Succeeds, Succeeds-refl,
}
use eu_saas.Services.Tenants.{update_stored}

-- The registry is consistent, and holds this very value under its id.
pub record IsStored (w : World) (t : Tenant) (s : Container) : Type 0 where
  pub consistent : IsConsistent w s
  pub found : lookup t.id s.tenants.store ≡ some t

-- The registry is consistent, and holds a tenant that `c` succeeds.
pub record CanBecome (w : World) (c : Tenant) (s : Container) : Type 0 where
  pub consistent : IsConsistent w s
  pub before : Tenant
  pub found : lookup c.id s.tenants.store ≡ some before
  pub step : Succeeds before c

pub IsStored-of_Leaves :
    (w : World) (t : Tenant) (s s' : Container) → Leaves s s' → IsStored w t s → IsStored w t s'
IsStored-of_Leaves w t s s' l h = record {
  consistent = IsConsistent-of_Leaves w s s' l h.consistent;
  found = rw l.same h.found;
}

module _ (w : World) (c t : Tenant) (s : Container) (h : IsConsistent w s)
    (found : lookup c.id s.tenants.store ≡ some t) (step : Succeeds t c) where
  update-pointing :
      (slug : String) (k : Uuid)
      → lookup slug s.tenants.by_slug ≡ some k
      → (u : Tenant) × (lookup k (insert c.id c s.tenants.store) ≡ some u) × (u.slug ≡ slug)
  update-pointing slug k e =
      let (u, stored, named) = h.pointing slug k e in
      elim (ℕ_discrete c.id k) [
        | yes same ↦
            (c, ground (arith, lookup-insert c.id k c s.tenants.store), ground (arith, step.slug))
        | no other ↦ (u, ground (arith, lookup-insert c.id k c s.tenants.store), named)
      ]

  update-IsConsistent : IsConsistent w (update_stored c s)
  unfolding Repo.update
  update-IsConsistent = record {
    filed = λ k u. ground (arith, lookup-insert c.id k c s.tenants.store, h.filed k u);
    drawn = λ k u e. elim (ℕ_discrete c.id k) [
      | yes same ↦ h.drawn k t (ground arith)
      | no other ↦ h.drawn k u (ground (arith, lookup-insert c.id k c s.tenants.store))
    ];
    indexed = λ k u.
        ground
          (arith, lookup-insert c.id k c s.tenants.store, h.indexed k u, h.indexed k t, step.slug);
    pointing = update-pointing;
  }

  update-successor :
      (k : Uuid) (u : Tenant)
      → lookup k s.tenants.store ≡ some u
      → (v : Tenant) × (lookup k (insert c.id c s.tenants.store) ≡ some v) × Succeeds u v
  update-successor k u e = elim (ℕ_discrete c.id k) [
    | yes same ↦ (
      c,
      ground (arith, lookup-insert c.id k c s.tenants.store),
      subst (λ x. Succeeds x c) (cc) step,
    )
    | no other ↦ (u, ground (arith, lookup-insert c.id k c s.tenants.store), Succeeds-refl u)
  ]

-- A mutation that is written back.
pub update_stored-Evolves :
    (w : World) (c : Tenant) (s : Container)
    → CanBecome w c s
    → Evolution w s (update_stored c s) × IsStored w c (update_stored c s)
unfolding Repo.update
update_stored-Evolves w c s h =
    let after = update-IsConsistent w c h.before s h.consistent h.found h.step in
    (
      λ _. record {
        counted = omega arith;
        consistent = after;
        successor = update-successor w c h.before s h.consistent h.found h.step;
      },
      record { consistent = after; found = lookup-insert_self c.id c s.tenants.store },
    )
