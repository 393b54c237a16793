-- ===== src/Jwt.antt =====
-- src/infrastructure/auth/jwt_handler.py. python-jose is a parameter; the clock and uuid4 are the
-- arguments `now` and `jti`.
pub mod Laws
use eu_saas.Prelude.{
  ℕ, ◌+◌, String, Bool, Option, none, some, List, [], ◌∷◌, is_some, insert, string_eq,
}
use eu_saas.Domain.Values.{Time, Value, text, int, Attributes, minutes, days}

pub record JwtConfig : Type 0 where
  pub algorithm : String
  pub access_token_expire_minutes : ℕ
  pub refresh_token_expire_days : ℕ
  pub issuer : String

-- `JWTConfig()`
abbrev pub default_config : JwtConfig
default_config = record {
  algorithm = "RS256";
  access_token_expire_minutes = 15;
  refresh_token_expire_days = 7;
  issuer = "eu-mt-platform";
}

-- The payload of the handler holds the times of issue and expiry as datetimes, here their
-- microseconds; python-jose writes them into the token as whole seconds. The tokens of python-jose: `jwt.encode(payload, key, algorithm)` and, at a time,
-- `jwt.decode(token, key, algorithm, issuer)` with the handler's options. `none` is a `JWTError`.
pub record Jose (T : Type 0) : Type 0 where
  pub encode : Attributes → String → String → T
  pub decode : Time → T → String → String → String → Option Attributes

pub record JwtHandler : Type 0 where
  pub private_key : String
  pub public_key : String
  pub config : JwtConfig

abbrev or_default : Option JwtConfig → JwtConfig
or_default none = default_config
or_default (some config) = config

unfoldable pub jwt_handler : String → String → Option JwtConfig → JwtHandler
jwt_handler private_key public_key config = record {
  private_key = private_key;
  public_key = public_key;
  config = or_default config;
}

-- `payload.update(claims)`
abbrev pub updated : Attributes → Attributes → Attributes
updated payload [] = payload
updated payload ((name, value) ∷ claims) = updated (insert name value payload) claims

-- `if extra_claims: payload.update(extra_claims)`
abbrev pub with_extra : Attributes → Option Attributes → Attributes
with_extra payload none = payload
with_extra payload (some claims) = updated payload claims

module _ (h : JwtHandler) where
  abbrev pub access_payload : String → String → String → Time → String → Attributes
  access_payload user_id tenant_id role now jti =
      ("sub", text user_id)
      ∷ ("tenant_id", text tenant_id)
      ∷ ("role", text role)
      ∷ ("iat", int now)
      ∷ ("exp", int (now + minutes h.config.access_token_expire_minutes))
      ∷ ("iss", text h.config.issuer)
      ∷ ("jti", text jti)
      ∷ ("token_type", text "access")
      ∷ []

  abbrev pub refresh_payload : String → String → Time → String → Attributes
  refresh_payload user_id tenant_id now jti =
      ("sub", text user_id)
      ∷ ("tenant_id", text tenant_id)
      ∷ ("iat", int now)
      ∷ ("exp", int (now + days h.config.refresh_token_expire_days))
      ∷ ("iss", text h.config.issuer)
      ∷ ("jti", text jti)
      ∷ ("token_type", text "refresh")
      ∷ []

module _ {T : Type 0} (jose : Jose T) (h : JwtHandler) where
  unfoldable pub create_access_token :
      (user_id tenant_id role : String) → Option Attributes → (now : Time) (jti : String) → T
  create_access_token user_id tenant_id role extra_claims now jti =
      jose.encode (with_extra (access_payload h user_id tenant_id role now jti) extra_claims)
        h.private_key h.config.algorithm

  unfoldable pub create_refresh_token : (user_id tenant_id : String) (now : Time) (jti : String) → T
  create_refresh_token user_id tenant_id now jti =
      jose.encode (refresh_payload h user_id tenant_id now jti) h.private_key h.config.algorithm

  unfoldable pub decode_token : T → Time → Option Attributes
  decode_token token now = jose.decode now token h.public_key h.config.algorithm h.config.issuer

  unfoldable pub verify_token : T → Time → Bool
  unfolding decode_token
  verify_token token now = is_some (decode_token token now)
