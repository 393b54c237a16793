-- ===== src/Adapters/Tokens.antt =====
-- `InMemoryRefreshTokenStore`
use eu_saas.Prelude.{
  String, Option, none, some, ltb, if◌then◌else◌, string_eq, Dict, lookup, insert, remove,
}
use eu_saas.Domain.Values.{Uuid, Time}

abbrev pub TokenStore : Type 0
TokenStore = Dict String (Uuid × Time)

unfoldable pub store : String → Uuid → Time → TokenStore → TokenStore
store token_id user_id expires_at tokens = insert token_id (user_id, expires_at) tokens

abbrev check : String → Time → TokenStore → Option (Uuid × Time) → Option Uuid × TokenStore
check token_id now tokens none = (none, tokens)
check token_id now tokens (some (user_id, expires_at)) =
    if ltb expires_at now then (none, remove token_id tokens) else (some user_id, tokens)

-- An expired token is deleted when it is looked up.
unfoldable pub validate : String → Time → TokenStore → Option Uuid × TokenStore
validate token_id now tokens = check token_id now tokens (lookup token_id tokens)

unfoldable pub revoke : String → TokenStore → TokenStore
revoke token_id tokens = remove token_id tokens
