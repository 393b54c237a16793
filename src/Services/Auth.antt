-- ===== src/Services/Auth.antt =====
-- src/application/services/auth_service.py. Password hashing (argon2-cffi) and the JWT encoding
-- (python-jose) are parameters, in `World`.
pub mod Effects
pub mod Tokens
pub mod SignIn
use eu_saas.Prelude.{
  ℕ, ◌+◌, String, Bool, true, false, not, Option, none, some, [], ◌∷◌, is_some, nat_beq,
  if◌then◌else◌, ◌==◌, lookup, string_eq,
}
use eu_saas.Text.{format}
use eu_saas.Domain.Values.{Uuid, Time, Value, text, int, Attributes, minutes, days}
use eu_saas.Domain.Tenant.{active, status_eq, status_value}
use eu_saas.Domain.User.{owner, member, role_value, User}
use eu_saas.Domain.Audit.{tenant_updated, user_login}
use eu_saas.Domain.Errors.{
  Error, tenant_not_found, authentication, invalid_token, user_already_exists, external,
}
use eu_saas.Adapters.Tenants as TenantRepo
use eu_saas.Adapters.Users as UserRepo
use eu_saas.Adapters.Tokens as RefreshStore
use eu_saas.Container.{
  Container, World, ok, Verified, matches, mismatch, unreadable, Action, ◌>>=◌, ◌>>◌, pure, raise,
  gets, or_raise, call, modify, raise_if,
}
use eu_saas.Services.Auditing.{create_audit_entry}

abbrev pub access_token_expire_minutes : ℕ
access_token_expire_minutes = 15

abbrev pub refresh_token_expire_days : ℕ
refresh_token_expire_days = 7

pub record TokenPair : Type 0 where
  pub access_token : String
  pub refresh_token : String

abbrev pub save_user : User → Container → Container
save_user user s = record s { users = UserRepo.save user s.users }

abbrev pub update_user : User → Container → Container
update_user user s = record s { users = UserRepo.update user s.users }

abbrev pub store_token : String → Uuid → Time → Container → Container
store_token token_id user_id expires_at s = record s {
  tokens = RefreshStore.store token_id user_id expires_at s.tokens;
}

abbrev pub revoke_token : String → Container → Container
revoke_token token_id s = record s { tokens = RefreshStore.revoke token_id s.tokens }

-- `self._refresh_store.validate(token_id)`, at the time `now`.
abbrev validate_token : String → Time → Action (Option Uuid)
validate_token token_id now s =
    let (user_id, tokens) = RefreshStore.validate token_id now s.tokens in
    (ok user_id, record s { tokens = tokens })

abbrev invalid_credentials : Error
invalid_credentials = authentication "Invalid credentials"

abbrev or_inactive : Option User → Action User
or_inactive none = raise (invalid_token "User not found or inactive")
or_inactive (some user) = do
  raise_if (not user.is_active) (invalid_token "User not found or inactive")
  pure user

-- `_verify_password`
abbrev verified : Verified → Action Bool
verified matches = pure true
verified mismatch = pure false
verified (unreadable message) = raise (external message)

-- The claim "sub", which python-jose lets through only as a text.
abbrev subject : Option Value → Action String
subject (some (text sub)) = pure sub
subject _ = raise (invalid_token "Token missing 'sub' claim")

module _ (w : World) where
  -- The claims of `_create_access_token`.
  abbrev pub claims : User → Time → Uuid → Attributes
  claims user now jti =
      ("sub", text (w.digest.str_uuid user.id))
      ∷ ("tenant_id", text (w.digest.str_uuid user.tenant_id))
      ∷ ("email", text user.email)
      ∷ ("role", text (role_value user.role))
      ∷ ("iss", text w.issuer)
      ∷ ("iat", int now)
      ∷ ("exp", int (now + minutes access_token_expire_minutes))
      ∷ ("jti", text (w.hex jti))
      ∷ []

  unfoldable pub create_access_token : User → Action String
  create_access_token user = do
    now ← call w.now
    jti ← call w.uuid4
    pure (w.jwt_encode (claims user now jti) w.private_key)

  unfoldable pub create_refresh_token : User → Action String
  create_refresh_token user = do
    token_id ← call w.token_urlsafe
    now ← call w.now
    modify (store_token token_id user.id (now + days refresh_token_expire_days))
    pure token_id

  unfoldable pub issue_token_pair : User → Action TokenPair
  issue_token_pair user = do
    access_token ← create_access_token user
    refresh_token ← create_refresh_token user
    pure (record { access_token = access_token; refresh_token = refresh_token })

  unfoldable pub register_user : Uuid → String → String → String → Action User
  register_user tenant_id email password full_name = do
    found ← gets (λ s. TenantRepo.get_by_id s.tenants tenant_id)
    tenant ← or_raise found (tenant_not_found tenant_id)
    raise_if (not (tenant.status == active)) (
        authentication (
          format (
            "Tenant "
            ∷ w.digest.str_uuid tenant_id
            ∷ " is not active (status="
            ∷ status_value tenant.status
            ∷ ")"
            ∷ [])))
    existing ← gets (λ s. UserRepo.get_by_email s.users email)
    raise_if (is_some existing) (user_already_exists email)
    user_count ← gets (λ s. UserRepo.count_by_tenant s.users tenant_id)
    let role = if nat_beq user_count 0 then owner else member
    id ← call w.uuid4
    hashed_password ← call (λ n. w.hash n password)
    created_at ← call w.now
    let user : User = record {
      id = id;
      tenant_id = tenant_id;
      email = email;
      hashed_password = hashed_password;
      full_name = full_name;
      role = role;
      is_active = true;
      created_at = created_at;
      last_login = none;
    }
    modify (save_user user)
    create_audit_entry w tenant_id tenant_updated id (
        ("event", text "user_registered")
        ∷ ("email", text email)
        ∷ ("role", text (role_value role))
        ∷ [])
    pure user

  unfoldable pub authenticate : String → String → Action TokenPair
  authenticate email password = do
    found ← gets (λ s. UserRepo.get_by_email s.users email)
    user ← or_raise found invalid_credentials
    raise_if (not user.is_active) (authentication "User account is disabled")
    valid ← verified (w.verify user.hashed_password password)
    raise_if (not valid) invalid_credentials
    now ← call w.now
    let seen = record user { last_login = some now }
    modify (update_user seen)
    token_pair ← issue_token_pair seen
    create_audit_entry w seen.tenant_id user_login seen.id (("email", text email) ∷ [])
    pure token_pair

  pub refresh_token : String → Action TokenPair
  refresh_token token = do
    now ← call w.now
    found ← validate_token token now
    user_id ← or_raise found (invalid_token "Refresh token is invalid or expired")
    modify (revoke_token token)
    holder ← gets (λ s. UserRepo.get_by_id s.users user_id)
    user ← or_inactive holder
    issue_token_pair user

  pub get_current_user : String → Action User
  get_current_user token = do
    decoded ← call (λ n. w.jwt_decode n token w.public_key w.issuer)
    payload ← or_raise decoded (invalid_token "JWTError")
    user_id_str ← subject (lookup "sub" payload)
    user_id ← or_raise (w.parse_uuid user_id_str) (invalid_token "Invalid user ID in token")
    holder ← gets (λ s. UserRepo.get_by_id s.users user_id)
    or_inactive holder
