-- ===== src/Access.antt =====
-- src/infrastructure/auth/rbac.py. The user that `request.state` holds is given by its role, and
-- `str.upper` is a parameter, since Python's covers all of Unicode.
pub mod Laws
use eu_saas.Prelude.{
  ℕ, ◌≡◌, ◌↔◌, String, Bool, not, Option, none, some, List, [], ◌∷◌, ltb, nat_beq, ◌==◌, Comparable,
  arith, contains, filter, if◌then◌else◌, string_eq,
}
use eu_saas.Text.{format}

pub data Permission : Type 0 where
  tenant_read tenant_write tenant_admin user_read user_write billing_read billing_write gdpr_read
        gdpr_write audit_read :
      Permission

abbrev pub permission_value : Permission → String
permission_value tenant_read = "tenant:read"
permission_value tenant_write = "tenant:write"
permission_value tenant_admin = "tenant:admin"
permission_value user_read = "user:read"
permission_value user_write = "user:write"
permission_value billing_read = "billing:read"
permission_value billing_write = "billing:write"
permission_value gdpr_read = "gdpr:read"
permission_value gdpr_write = "gdpr:write"
permission_value audit_read = "audit:read"

pub data TenantRole : Type 0 where
  viewer member admin owner : TenantRole

-- The value of the `IntEnum`.
abbrev pub level : TenantRole → ℕ
level viewer = 10
level member = 20
level admin = 30
level owner = 40

abbrev pub role_name : TenantRole → String
role_name viewer = "VIEWER"
role_name member = "MEMBER"
role_name admin = "ADMIN"
role_name owner = "OWNER"

-- The position of a permission in the enumeration, by which two of them are compared.
abbrev position : Permission → ℕ
position tenant_read = 0
position tenant_write = 1
position tenant_admin = 2
position user_read = 3
position user_write = 4
position billing_read = 5
position billing_write = 6
position gdpr_read = 7
position gdpr_write = 8
position audit_read = 9

abbrev permission_beq : Permission → Permission → Bool
permission_beq p q = nat_beq (position p) (position q)

pub permission_beq_iff : (p q : Permission) → (permission_beq p q ≡ Bool.true) ↔ (p ≡ q)
permission_beq_iff p q = ground arith

instance abbrev pub permission_eq : Comparable Permission
permission_eq = record { equal = permission_beq; equal_iff = permission_beq_iff }

abbrev pub all_permissions : List Permission
all_permissions =
    tenant_read ∷ tenant_write ∷ tenant_admin ∷ user_read ∷ user_write ∷ billing_read
    ∷ billing_write ∷ gdpr_read ∷ gdpr_write ∷ audit_read ∷ []

-- `ROLE_PERMISSIONS`
unfoldable pub role_permissions : TenantRole → List Permission
role_permissions owner = all_permissions
role_permissions admin = filter (λ p. not (p == tenant_admin)) all_permissions
role_permissions member =
    tenant_read ∷ user_read ∷ user_write ∷ billing_read ∷ gdpr_read ∷ audit_read ∷ []
role_permissions viewer = tenant_read ∷ user_read ∷ billing_read ∷ gdpr_read ∷ audit_read ∷ []

-- What a dependency does: it returns, or raises an `HTTPException`.
pub data Outcome : Type 0 where
  passed : Outcome
  http_exception : (status_code : ℕ) (detail : String) → Outcome

-- `TenantRole[name]`
unfoldable pub role_named : String → Option TenantRole
role_named name =
    if name == "VIEWER"
    then some viewer
    else if name == "MEMBER"
    then some member
    else if name == "ADMIN"
    then some admin
    else if name == "OWNER"
    then some owner
    else none

-- `_resolve_role`, of which the caller uses the role.
abbrev resolved : Option TenantRole → String → (TenantRole → Outcome) → Outcome
resolved none role_value k = http_exception 403 (format ("Unknown role: " ∷ role_value ∷ []))
resolved (some role) role_value k = k role

module _ (upper : String → String) where
  abbrev resolve_role : String → (TenantRole → Outcome) → Outcome
  resolve_role role_value = resolved (role_named (upper role_value)) role_value

  -- `_get_current_user`, and the role of the user
  abbrev pub with_role : Option String → (TenantRole → Outcome) → Outcome
  with_role none k = http_exception 401 "Authentication required."
  with_role (some role_value) k = resolve_role role_value k

  unfoldable pub require_permission : Permission → Option String → Outcome
  require_permission permission user = with_role user λ role.
      if contains permission (role_permissions role)
      then passed
      else http_exception 403
          (format ("Permission denied. Required: " ∷ permission_value permission ∷ []))

  unfoldable pub require_role : TenantRole → Option String → Outcome
  require_role min_role user = with_role user λ role.
      if ltb (level role) (level min_role)
      then http_exception 403 (
          format (
            "Insufficient role. Required: "
            ∷ role_name min_role
            ∷ ", current: "
            ∷ role_name role
            ∷ []))
      else passed
