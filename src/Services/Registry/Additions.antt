-- ===== src/Services/Registry/Additions.antt =====
-- A new tenant, filed under an id that was just drawn and a slug that is free.
use native.Mathlib.Decide.{ℕ_discrete}
use eu_saas.Prelude.{
  refl, sym, ◌+◌, false≢true, Option-cases, false, is_some, ℕ, ◌∙◌, ◌<◌, ◌≡◌, String, none, some,
  nat_eq, string_eq, lookup, insert, lookup-insert, lookup-insert_self, arith, eq_iff, Bool-cases,
  inl, inr, ◌==◌,
}
use eu_saas.Domain.Values.{Uuid}
use eu_saas.Domain.Tenant.{Tenant}
use eu_saas.Adapters.Tenants as Repo
use eu_saas.Container.{Container, World}
use eu_saas.Services.Registry.{
  Leaves-preorder, IsConsistent-of_Leaves, AreDistinct, Leaves, IsConsistent, Succeeds,
  Succeeds-refl, Evolution,
}
use eu_saas.Services.Registry.Writes.{IsStored}
use eu_saas.Services.Tenants.{save_tenant}

-- An id that was drawn and is not in use, and a slug that is free.
pub record IsNew (w : World) (id : Uuid) (slug : String) (s : Container) : Type 0 where
  pub consistent : IsConsistent w s
  pub absent : lookup id s.tenants.store ≡ none
  pub free : lookup slug s.tenants.by_slug ≡ none
  pub number : ℕ
  pub below : number < s.calls
  pub drawn : w.uuid4 number ≡ id

pub IsNew-of_Leaves :
    (w : World) (id : Uuid) (slug : String) (s t : Container)
    → Leaves s t
    → IsNew w id slug s
    → IsNew w id slug t
IsNew-of_Leaves w id slug s t l new = record {
  consistent = IsConsistent-of_Leaves w s t l new.consistent;
  absent = rw l.same new.absent;
  free = rw l.same new.free;
  number = new.number;
  below = omega (arith, new.below, l.later);
  drawn = new.drawn;
}

-- The next UUID is new.
pub draw-IsNew :
    (w : World) (slug : String) (s : Container)
    → AreDistinct w
    → IsConsistent w s
    → lookup slug s.tenants.by_slug ≡ none
    → IsNew w (w.uuid4 s.calls) slug (record s { calls = s.calls + 1 })
draw-IsNew w slug s distinct c free = record {
  consistent =
      IsConsistent-of_Leaves w s (record s { calls = s.calls + 1 }) (Leaves-preorder.calling s) c;
  absent = elim (Option-cases (lookup (w.uuid4 s.calls) s.tenants.store)) [
    | inl none_there ↦ none_there
    | inr (t, e) ↦
        let (n, below, drawn) = c.drawn (w.uuid4 s.calls) t e in
        absurd (omega (arith, below, distinct n s.calls drawn))
  ];
  free = free;
  number = s.calls;
  below = omega arith;
  drawn = refl;
}

-- A slug that `get_by_slug` does not find is free.
pub get_by_slug-free :
    (w : World) (slug : String) (s : Container)
    → IsConsistent w s
    → is_some (Repo.get_by_slug s.tenants slug) ≡ false
    → lookup slug s.tenants.by_slug ≡ none
unfolding Repo.get_by_slug
get_by_slug-free w slug s c unused = elim (Option-cases (lookup slug s.tenants.by_slug)) [
  | inl missing ↦ missing
  | inr (k, e) ↦
      let (t, stored, named) = c.pointing slug k e in
      absurd (false≢true (sym (rw (e, stored) at unused)))
]

module _ (w : World) (t : Tenant) (s : Container) (h : IsConsistent w s)
    (new : IsNew w t.id t.slug s) where
  save-pointing :
      (slug : String) (k : Uuid)
      → lookup slug (insert t.slug t.id s.tenants.by_slug) ≡ some k
      → (u : Tenant) × (lookup k (insert t.id t s.tenants.store) ≡ some u) × (u.slug ≡ slug)
  save-pointing slug k e = elim (Bool-cases (t.slug == slug)) [
    | inl same ↦ (
      t,
      ground (
        arith,
        lookup-insert t.id k t s.tenants.store,
        lookup-insert t.slug slug t.id s.tenants.by_slug,
      ),
      (eq_iff t.slug slug).0 same,
    )
    | inr other ↦
        let (u, stored, named) =
          h.pointing slug k (ground (arith, lookup-insert t.slug slug t.id s.tenants.by_slug)) in
        (u, ground (arith, lookup-insert t.id k t s.tenants.store, new.absent), named)
  ]

  save-IsConsistent : IsConsistent w (save_tenant t s)
  unfolding Repo.save
  save-IsConsistent = record {
    filed = λ k u. ground (arith, lookup-insert t.id k t s.tenants.store, h.filed k u);
    drawn = λ k u e. elim (ℕ_discrete t.id k) [
      | yes same ↦ (new.number, new.below, new.drawn ∙ same)
      | no other ↦ h.drawn k u (ground (arith, lookup-insert t.id k t s.tenants.store))
    ];
    indexed = λ k u. ground (
      arith,
      lookup-insert t.id k t s.tenants.store,
      lookup-insert t.slug u.slug t.id s.tenants.by_slug,
      h.indexed k u,
      new.free,
      eq_iff t.slug u.slug,
    );
    pointing = save-pointing;
  }

  save-successor :
      (k : Uuid) (u : Tenant)
      → lookup k s.tenants.store ≡ some u
      → (v : Tenant) × (lookup k (insert t.id t s.tenants.store) ≡ some v) × Succeeds u v
  save-successor k u e =
      (u, ground (arith, lookup-insert t.id k t s.tenants.store, new.absent), Succeeds-refl u)

pub save_tenant-Evolves :
    (w : World) (t : Tenant) (s : Container)
    → IsNew w t.id t.slug s
    → Evolution w s (save_tenant t s) × IsStored w t (save_tenant t s)
unfolding Repo.save
save_tenant-Evolves w t s new = (
  λ _. record {
    counted = omega arith;
    consistent = save-IsConsistent w t s new.consistent new;
    successor = save-successor w t s new.consistent new;
  },
  record {
    consistent = save-IsConsistent w t s new.consistent new;
    found = lookup-insert_self t.id t s.tenants.store;
  },
)
