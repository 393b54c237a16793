-- ===== src/Services/Auth/Effects.antt =====
-- What every method of AuthService follows, also when it raises: it writes no tenant, and to the
-- audit log only by `create_audit_entry`.
use eu_saas.Prelude.{refl, String, Option, none, some}
use eu_saas.Domain.Values.{Uuid, Time, Value, text, int, texts}
use eu_saas.Domain.User.{User}
use eu_saas.Container.{Container, World, Verified, matches, mismatch, unreadable, modify}
use eu_saas.Container.Follows.{Follows}
use eu_saas.Services.Respect.{Respects, write-Follows, respect_rules}
use eu_saas.Services.Auth.{
  save_user, update_user, store_token, revoke_token, validate_token, or_inactive, verified, subject,
  create_access_token, create_refresh_token, issue_token_pair, register_user, authenticate,
  refresh_token, get_current_user,
}

module _ (w : World) {R : Container → Container → Type 0} (r : Respects w R) where
  save_user-Follows : (u : User) → Follows R (modify (save_user u))
  save_user-Follows u = write-Follows r (save_user u) (λ s. refl) (λ s. refl) (λ s. refl)

  update_user-Follows : (u : User) → Follows R (modify (update_user u))
  update_user-Follows u = write-Follows r (update_user u) (λ s. refl) (λ s. refl) (λ s. refl)

  store_token-Follows :
      (token_id : String) (user_id : Uuid) (expires_at : Time)
      → Follows R (modify (store_token token_id user_id expires_at))
  store_token-Follows token_id user_id expires_at =
      write-Follows r (store_token token_id user_id expires_at) (λ s. refl) (λ s. refl) (λ s. refl)

  revoke_token-Follows : (token_id : String) → Follows R (modify (revoke_token token_id))
  revoke_token-Follows token_id =
      write-Follows r (revoke_token token_id) (λ s. refl) (λ s. refl) (λ s. refl)

  validate_token-Follows :
      (token_id : String) (now : Time) → Follows R (validate_token token_id now)
  validate_token-Follows token_id now = record {
    at = λ s. r.elsewhere s (validate_token token_id now s).1 refl refl refl;
  }

  or_inactive-Follows : (o : Option User) → Follows R (or_inactive o)
  or_inactive-Follows none = search respect_rules
  or_inactive-Follows (some u) = search respect_rules

  verified-Follows : (v : Verified) → Follows R (verified v)
  verified-Follows matches = search respect_rules
  verified-Follows mismatch = search respect_rules
  verified-Follows (unreadable message) = search respect_rules

  subject-Follows : (v : Option Value) → Follows R (subject v)
  subject-Follows none = search respect_rules
  subject-Follows (some (text sub)) = search respect_rules
  subject-Follows (some (int n)) = search respect_rules
  subject-Follows (some (texts l)) = search respect_rules

  issue_token_pair-Follows : (u : User) → Follows R (issue_token_pair w u)
  unfolding issue_token_pair create_access_token create_refresh_token
  issue_token_pair-Follows u = search (respect_rules, store_token-Follows) depth 12

  pub register_user-Follows :
      (tenant_id : Uuid) (email password full_name : String)
      → Follows R (register_user w tenant_id email password full_name)
  unfolding register_user
  register_user-Follows tenant_id email password full_name =
      search (respect_rules, save_user-Follows) depth 16

  pub authenticate-Follows : (email password : String) → Follows R (authenticate w email password)
  unfolding authenticate
  authenticate-Follows email password =
      search (respect_rules, update_user-Follows, verified-Follows, issue_token_pair-Follows) depth
        16

  pub refresh_token-Follows : (token : String) → Follows R (refresh_token w token)
  unfolding refresh_token
  refresh_token-Follows token =
      search
        (
          respect_rules, validate_token-Follows, revoke_token-Follows, or_inactive-Follows,
          issue_token_pair-Follows,
        )
        depth 16

  pub get_current_user-Follows : (token : String) → Follows R (get_current_user w token)
  unfolding get_current_user
  get_current_user-Follows token =
      search (respect_rules, subject-Follows, or_inactive-Follows) depth 16
