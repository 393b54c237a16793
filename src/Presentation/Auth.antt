-- ===== src/Presentation/Auth.antt =====
-- src/presentation/api/v1/auth.py. A header that is not sent is `none`, and its value a Latin-1 text.
use eu_saas.Prelude.{String, Option, none, some, bind}
use eu_saas.Text.{remove_prefix, strip}
use eu_saas.Domain.User.{User, role_value}
use eu_saas.Domain.Errors.{Error, authentication, invalid_token, value_error}
use eu_saas.Container.{World, Action, ◌>>=◌, pure, raise, or_raise, try_except}
use eu_saas.Services.Auth as AuthService
use eu_saas.Services.Auth.{TokenPair}
use eu_saas.Presentation.{Outcome, serialised}
use eu_saas.Presentation.Schemas.{Validators, UserRegister, UserLogin, TokenResponse, UserResponse}

unfoldable pub user_to_response : Validators → User → Option UserResponse
user_to_response v user = bind (v.email_str user.email) λ email. some (record {
  id = user.id;
  tenant_id = user.tenant_id;
  email = email;
  full_name = user.full_name;
  role = role_value user.role;
  is_active = user.is_active;
  created_at = user.created_at;
  last_login_at = user.last_login;
})

-- A pair with the defaults of its type and lifetime, which is 15 minutes.
abbrev pub token_response : TokenPair → TokenResponse
token_response pair = record {
  access_token = pair.access_token;
  refresh_token = pair.refresh_token;
  token_type = "Bearer";
  expires_in = 900;
}

-- `auth_header.removeprefix("Bearer ").strip()`
abbrev pub bearer_token : Option String → String
bearer_token none = ""
bearer_token (some header) = strip (remove_prefix "Bearer " header)

-- `except AuthenticationError`
abbrev unauthenticated : Error → Action (Outcome TokenResponse)
unauthenticated (authentication detail) = pure (Outcome.refused 401 detail)
unauthenticated e = raise e

-- `except InvalidTokenError`
abbrev unauthorized : {R : Type 0} → Error → Action (Outcome R)
unauthorized (invalid_token detail) = pure (Outcome.refused 401 detail)
unauthorized e = raise e

abbrev unless_empty : {R : Type 0} → String → String → Action (Outcome R) → Action (Outcome R)
unless_empty String.[] detail body = pure (Outcome.refused 401 detail)
unless_empty (String.◌∷◌ c token) detail body = body

module _ (w : World) (v : Validators) where
  abbrev pub register_in : String → UserRegister → Action (Outcome UserResponse)
  register_in header body = do
    tenant_id ← or_raise (w.parse_uuid header) (value_error "badly formed hexadecimal UUID string")
    user ← AuthService.register_user w tenant_id body.email body.password body.full_name
    pure (serialised 201 (user_to_response v user))

  unfoldable pub register : Option String → UserRegister → Action (Outcome UserResponse)
  register none body = pure (Outcome.refused 400 "X-Tenant-ID header is required.")
  register (some String.[]) body = pure (Outcome.refused 400 "X-Tenant-ID header is required.")
  register (some (String.◌∷◌ c header)) body = register_in (String.◌∷◌ c header) body

  unfoldable pub login : UserLogin → Action (Outcome TokenResponse)
  login body =
      try_except
        (AuthService.authenticate w body.email body.password >>= λ pair.
          pure (Outcome.answered 200 (token_response pair)))
        unauthenticated

  unfoldable pub refresh_token : Option String → Action (Outcome TokenResponse)
  refresh_token header =
      let token = bearer_token header in
      unless_empty token "Refresh token required." (
        try_except
          (AuthService.refresh_token w token >>= λ pair.
            pure (Outcome.answered 200 (token_response pair)))
          unauthorized)

  -- It answers without looking at the request.
  unfoldable pub logout : Action (Outcome (Unit {0}))
  logout = pure (Outcome.answered 204 tt)

  unfoldable pub me : Option String → Action (Outcome UserResponse)
  me header =
      let token = bearer_token header in
      unless_empty token "Authentication required." (
        try_except
          (AuthService.get_current_user w token >>= λ user.
            pure (serialised 200 (user_to_response v user)))
          unauthorized)
