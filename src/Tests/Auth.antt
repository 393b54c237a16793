-- ===== src/Tests/Auth.antt =====
-- Signing in.
use eu_saas.Prelude.{
  ap, ◌∙◌, code, ℕ, suc, ◌+◌, ◌≡◌, ◌≢◌, refl, String, none, some, lookup, insert, nat_eq, string_eq,
  arith, true,
}
use eu_saas.Domain.User.{User, TenantRole}
use eu_saas.Domain.Errors.{invalid_token}
use eu_saas.Adapters.Tenants as TenantRepo
use eu_saas.Adapters.Users as UserRepo
use eu_saas.Container.{Container, Verified, ok, err, running}
use eu_saas.Services.Auditing.{create_audit_entry}
use eu_saas.Services.Auth.{
  TokenPair, register_user, authenticate, refresh_token, get_current_user, issue_token_pair,
  create_access_token, create_refresh_token,
}
use eu_saas.Services.Auth.Tokens.{refresh_token-once}
use eu_saas.Services.Auth.SignIn.{
  IsRegistered, IsSignedIn, register_user-IsRegistered, authenticate-IsSignedIn, authenticate_sound,
  register_user-get_current_user,
}
use eu_saas.Tests.Fixtures.{world, world-IsSound, office, acme, ada, tally}

-- The first letter of a text.
abbrev initial : String → ℕ
initial String.[] = 0
initial (String.◌∷◌ c t) = code c

tally-other : (n : ℕ) → tally (n + 1) ≢ "old"
tally-other n e =
    let first : suc n ≡ n + 1 = omega arith in
    let letters : initial (tally (suc n)) ≡ initial "old" = ap initial (ap tally first ∙ e) in
    absurd (omega (arith, letters))

refresh_token-once_example :
    (refresh_token world "old" (refresh_token world "old" office).1).0
    ≡ err (invalid_token "Refresh token is invalid or expired")
refresh_token-once_example = refresh_token-once world "old" tally-other office

register_user-IsRegistered_example :
    IsRegistered world 7 "bob@acme.eu" "pass" office
      (register_user world 7 "bob@acme.eu" "pass" "Bob" office)
unfolding lookup TenantRepo.get_by_id UserRepo.get_by_email
register_user-IsRegistered_example =
    register_user-IsRegistered world "bob@acme.eu" "pass" office 7 "Bob" acme refl refl refl

authenticate-IsSignedIn_example :
    IsSignedIn world ada office (authenticate world "ada@acme.eu" "secret" office)
unfolding lookup UserRepo.get_by_email
authenticate-IsSignedIn_example =
    authenticate-IsSignedIn world "ada@acme.eu" "secret" office ada refl refl refl

-- The tokens that Ada is given.
abbrev pair : TokenPair
pair = record { access_token = tally 8; refresh_token = tally 13 }

authenticate_sound_example :
    (u : User) × (UserRepo.get_by_email office.users "ada@acme.eu" ≡ some u)
    × (u.is_active ≡ true)
    × (world.verify u.hashed_password "secret" ≡ Verified.matches)
unfolding lookup UserRepo.get_by_email authenticate issue_token_pair create_access_token
    create_refresh_token running create_audit_entry
authenticate_sound_example = authenticate_sound world "ada@acme.eu" "secret" office pair refl

-- The user that registers, and the containers after the registration and the sign-in.
abbrev bob : User
bob = record {
  id = 10;
  tenant_id = 7;
  email = "bob@acme.eu";
  hashed_password = "pass";
  full_name = "Bob";
  role = TenantRole.member;
  is_active = true;
  created_at = 11;
  last_login = none;
}

abbrev registered : Container
registered = (register_user world 7 "bob@acme.eu" "pass" "Bob" office).1

abbrev signed_in : Container
signed_in = (authenticate world "bob@acme.eu" "pass" registered).1

abbrev tokens : TokenPair
tokens = record { access_token = tally 10; refresh_token = tally 18 }

register_user-get_current_user_example :
    (get_current_user world tokens.access_token signed_in).0
    ≡ ok (record bob { last_login = some (world.now registered.calls) })
unfolding lookup insert TenantRepo.get_by_id UserRepo.get_by_email UserRepo.save UserRepo.update
    UserRepo.count_by_tenant authenticate issue_token_pair create_access_token create_refresh_token
    running create_audit_entry register_user
register_user-get_current_user_example =
    register_user-get_current_user world world-IsSound 7 "bob@acme.eu" "pass" "Bob" acme office
      registered signed_in bob tokens refl refl refl refl refl (omega arith)
