-- ===== src/Access/Laws.antt =====
-- Who is let through by the role-based access control.
use eu_saas.Prelude.{
  refl, inr, inl, Option-cases, ◌≤◌, ◌≡◌, ◌↔◌, String, true, Option, none, some, arith, contains,
}
use eu_saas.Access.{
  Permission, tenant_admin, TenantRole, owner, level, permission_eq, role_permissions, passed,
  role_named, require_permission, require_role,
}

-- A higher role has every permission of a lower one.
pub role_permissions_mono :
    (a b : TenantRole) (p : Permission)
    → level a ≤ level b
    → contains p (role_permissions a) ≡ true
    → contains p (role_permissions b) ≡ true
unfolding role_permissions
role_permissions_mono a b p h k = ground arith

-- OWNER alone may administer the tenant.
pub tenant_admin_iff :
    (role : TenantRole) → (contains tenant_admin (role_permissions role) ≡ true) ↔ (role ≡ owner)
unfolding role_permissions
tenant_admin_iff role = ground arith

module _ (upper : String → String) where
  -- Who a user is: it names a role.
  abbrev pub Names : Option String → TenantRole → Type 0
  Names user role =
      (role_value : String) × (user ≡ some role_value) × (role_named (upper role_value) ≡ some role)

  -- A user passes the check of a permission exactly if it names a role that has the permission.
  pub require_permission-passed :
      (p : Permission) (user : Option String)
      → (require_permission upper p user ≡ passed)
        ↔ ((role : TenantRole) × Names user role × (contains p (role_permissions role) ≡ true))
  unfolding require_permission
  require_permission-passed p none =
      (λ h. ground arith, λ (r, (u, same, e), k). ground (arith, same))
  require_permission-passed p (some v) = elim (Option-cases (role_named (upper v))) [
    | inl missing ↦ (λ h. ground arith, λ (role, (u, same, e), k). ground (arith, same, e))
    | inr (role, e) ↦ (
      λ h. (role, (v, refl, e), ground (arith, h, e)),
      λ (r, (u, same, e'), k). ground (arith, same, e, e', k),
    )
  ]

  -- A user passes the check of a role exactly if it names that role or a higher one.
  pub require_role-passed :
      (min_role : TenantRole) (user : Option String)
      → (require_role upper min_role user ≡ passed)
        ↔ ((role : TenantRole) × Names user role × (level min_role ≤ level role))
  unfolding require_role
  require_role-passed min_role none =
      (λ h. ground arith, λ (r, (u, same, e), k). ground (arith, same))
  require_role-passed min_role (some v) = elim (Option-cases (role_named (upper v))) [
    | inl missing ↦ (λ h. ground arith, λ (role, (u, same, e), k). ground (arith, same, e))
    | inr (role, e) ↦ (
      λ h. (role, (v, refl, e), ground (arith, h, e)),
      λ (r, (u, same, e'), k). ground (arith, same, e, e', k),
    )
  ]
