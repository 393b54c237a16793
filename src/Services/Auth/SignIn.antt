-- ===== src/Services/Auth/SignIn.antt =====
-- From the registration of a user to a request that is authorised by its access token.
use eu_saas.Prelude.{
  ap, sym, ◌∙◌, ◌≤◌, subst, ◌+◌, ℕ, ◌≡◌, refl, String, true, Bool-cases, inl, inr, Option-cases,
  none, some, lookup, nat_beq, nat_eq, string_eq, lookup-insert_self, arith, [], ◌∷◌, ◌++◌,
  if◌then◌else◌,
}
use eu_saas.Domain.Values.{int, Uuid, Time, Attributes, text, days, minutes}
use eu_saas.Domain.Tenant.{Tenant, active}
use eu_saas.Domain.User.{User, owner, member}
use eu_saas.Domain.Audit.{AuditEntry, audit_entry, user_login}
use eu_saas.Domain.Errors.{Error, external, authentication}
use eu_saas.Adapters.Tokens as RefreshStore
use eu_saas.Adapters.Tenants as TenantRepo
use eu_saas.Adapters.AuditEntries
use eu_saas.Adapters.Users as UserRepo
use eu_saas.Services.Auditing.{create_audit_entry}
use eu_saas.Container.{ok_inj, Result, ok, err, Container, World, Verified, running}
use eu_saas.Services.Auth.{
  invalid_credentials, TokenPair, claims, access_token_expire_minutes, register_user, authenticate,
  get_current_user, issue_token_pair, create_access_token, create_refresh_token,
}

-- A user that was registered: stored under its id and email, with the hash of its password.
pub record IsRegistered (w : World) (tenant_id : Uuid) (email password : String) (s : Container)
    (r : Result User × Container) : Type 0 where
  pub user : User
  pub result : r.0 ≡ ok user
  pub tenant : user.tenant_id ≡ tenant_id
  pub on : user.is_active ≡ true
  pub role :
      user.role ≡ (if nat_beq (UserRepo.count_by_tenant s.users tenant_id) 0 then owner else member)
  pub stored : UserRepo.get_by_id r.1.users user.id ≡ some user
  pub indexed : UserRepo.get_by_email r.1.users email ≡ some user
  pub calls : ℕ
  pub hashed : user.hashed_password ≡ w.hash calls password

-- A user that has signed in: the user is stored with the time of it, the access token carries its
-- claims, the refresh token is new and stored for 7 days from its issue, and one login is logged.
pub record IsSignedIn (w : World) (u : User) (s : Container) (r : Result TokenPair × Container)
    : Type 0 where
  pub pair : TokenPair
  pub result : r.0 ≡ ok pair
  pub seen : User
  pub touched : seen ≡ record u { last_login = some (w.now s.calls) }
  pub stored : UserRepo.get_by_id r.1.users seen.id ≡ some seen
  pub jti : Uuid
  pub access :
      pair.access_token ≡ w.jwt_encode (claims w seen (w.now (s.calls + 1)) jti) w.private_key
  pub drawn : pair.refresh_token ≡ w.token_urlsafe (s.calls + 3)
  pub refreshable : lookup pair.refresh_token r.1.tokens ≡ some (u.id, w.now (s.calls + 4) + days 7)
  pub entry : AuditEntry
  pub logged : r.1.audit ≡ s.audit ++ entry ∷ []
  pub kind : entry.action ≡ user_login

module _ (w : World) (email password : String) (s : Container) where
  -- For an ACTIVE tenant and a free email, an active user with the hash of the password is returned
  -- and stored under its id and email; it is OWNER if the tenant had no user, and MEMBER otherwise.
  pub register_user-IsRegistered :
      (tenant_id : Uuid) (full_name : String) (t : Tenant)
      → TenantRepo.get_by_id s.tenants tenant_id ≡ some t
      → t.status ≡ active
      → UserRepo.get_by_email s.users email ≡ none
      → IsRegistered w tenant_id email password s
          (register_user w tenant_id email password full_name s)
  unfolding register_user create_audit_entry running UserRepo.save UserRepo.get_by_id
      UserRepo.get_by_email
  register_user-IsRegistered tenant_id full_name t found on free =
      rw (found, on, free)
        (record {
          user = _;
          result = refl;
          tenant = refl;
          on = refl;
          role = refl;
          stored = lookup-insert_self _ _ _;
          indexed = simp lookup-insert_self;
          calls = _;
          hashed = refl;
        })

  -- An active user that the email finds and whose hash the password matches: the time of the sign-in
  -- is stored, an access token with its claims and a freshly drawn refresh token are returned, which is
  -- stored until 7 days after the reading of the clock that follows its drawing, and one USER_LOGIN
  -- entry is logged.
  pub authenticate-IsSignedIn :
      (u : User)
      → UserRepo.get_by_email s.users email ≡ some u
      → u.is_active ≡ true
      → w.verify u.hashed_password password ≡ Verified.matches
      → IsSignedIn w u s (authenticate w email password s)
  unfolding authenticate issue_token_pair create_access_token create_refresh_token
      create_audit_entry running UserRepo.update UserRepo.get_by_id RefreshStore.store
      AuditEntries.save audit_entry
  authenticate-IsSignedIn u found on valid =
      rw (found, on, valid)
        (record {
          pair = _;
          result = refl;
          seen = _;
          touched = refl;
          stored = lookup-insert_self _ _ _;
          jti = _;
          access = refl;
          drawn = ap w.token_urlsafe (omega arith);
          refreshable =
              lookup-insert_self _ _ _ ∙ ap (λ n. some (u.id, w.now n + days 7)) (omega arith);
          entry = _;
          logged = refl;
          kind = refl;
        })

  refused :
      {C : Type 0} (pair : TokenPair) (e : Error) (r : Result TokenPair)
      → r ≡ err e
      → r ≡ ok pair
      → C
  refused pair e r a b = ground (arith, a, b)

  verified_as :
      (pair : TokenPair) (u : User) (v : Verified)
      → UserRepo.get_by_email s.users email ≡ some u
      → u.is_active ≡ true
      → w.verify u.hashed_password password ≡ v
      → (authenticate w email password s).0 ≡ ok pair
      → v ≡ Verified.matches
  unfolding authenticate running
  verified_as pair u Verified.matches e on v h = refl
  verified_as pair u Verified.mismatch e on v h =
      refused pair invalid_credentials (authenticate w email password s).0 (rw (e, on, v) refl) h
  verified_as pair u (Verified.unreadable m) e on v h =
      refused pair (external m) (authenticate w email password s).0 (rw (e, on, v) refl) h

  -- If a pair of tokens is returned, the email belongs to an active user, and the password matches
  -- its hash.
  pub authenticate_sound :
      (pair : TokenPair)
      → (authenticate w email password s).0 ≡ ok pair
      → (u : User) × (UserRepo.get_by_email s.users email ≡ some u)
        × (u.is_active ≡ true)
        × (w.verify u.hashed_password password ≡ Verified.matches)
  unfolding authenticate running
  authenticate_sound pair h = elim (Option-cases (UserRepo.get_by_email s.users email)) [
    | inl e ↦ refused pair invalid_credentials (authenticate w email password s).0 (rw e refl) h
    | inr (u, e) ↦ elim (Bool-cases u.is_active) [
      | inl on ↦ (u, e, on, verified_as pair u _ e on refl h)
      | inr off ↦
          refused pair (authentication "User account is disabled")
            (authenticate w email password s).0 (rw (e, off) refl) h
    ]
  ]

-- Documented behaviour of argon2-cffi, python-jose and `uuid`: a password verifies against its own
-- hash; a token that was signed with the private key, names the issuer and has not expired decodes
-- with the public key to claims of the same subject; `UUID(str(id))` is `id`.
pub record IsSound (w : World) : Type 0 where
  pub verifies :
      (n : ℕ) (password : String) → w.verify (w.hash n password) password ≡ Verified.matches
  pub decodes :
      (n : ℕ) (c : Attributes) (sub : String) (exp : Time)
      → lookup "sub" c ≡ some (text sub)
      → lookup "iss" c ≡ some (text w.issuer)
      → lookup "exp" c ≡ some (int exp)
      → w.now n ≤ exp
      → (payload : Attributes) × (w.jwt_decode n
            (w.jwt_encode c w.private_key)
            w.public_key
            w.issuer
          ≡ some payload)
        × (lookup "sub" payload ≡ some (text sub))
  pub parses : (id : Uuid) → w.parse_uuid (w.digest.str_uuid id) ≡ some id

module _ (w : World) (sound : IsSound w) where
  -- Until it expires, the access token of an active user that is stored is answered with this user.
  get_current_user-known :
      (s : Container) (u : User) (issued : Time) (jti : Uuid)
      → UserRepo.get_by_id s.users u.id ≡ some u
      → u.is_active ≡ true
      → w.now s.calls ≤ issued + minutes access_token_expire_minutes
      → (get_current_user w (w.jwt_encode (claims w u issued jti) w.private_key) s).0 ≡ ok u
  unfolding get_current_user running lookup
  get_current_user-known s u issued jti stored on early =
      let (payload, decoded, subject) =
        sound.decodes s.calls (claims w u issued jti) (w.digest.str_uuid u.id) _ refl refl refl
          early in
      rw (decoded, subject, sound.parses, stored, on) refl

  -- If argon2, python-jose and UUID behave as documented: a user that registers with a free email at
  -- an ACTIVE tenant and then signs in with its password is, with the time of the sign-in, the user
  -- that its access token is answered with until it expires.
  pub register_user-get_current_user :
      (tenant_id : Uuid) (email password full_name : String) (t : Tenant)
      (s registered signed_in : Container) (user : User) (pair : TokenPair)
      → TenantRepo.get_by_id s.tenants tenant_id ≡ some t
      → t.status ≡ active
      → UserRepo.get_by_email s.users email ≡ none
      → register_user w tenant_id email password full_name s ≡ (ok user, registered)
      → authenticate w email password registered ≡ (ok pair, signed_in)
      → w.now signed_in.calls ≤ w.now (registered.calls + 1) + minutes access_token_expire_minutes
      → (get_current_user w pair.access_token signed_in).0
        ≡ ok (record user { last_login = some (w.now registered.calls) })
  register_user-get_current_user tenant_id email password full_name t s registered signed_in user
        pair found on free r a early =
      let k =
        subst (IsRegistered w tenant_id email password s) r
          (register_user-IsRegistered w email password s tenant_id full_name t found on free) in
      let same : k.user ≡ user = ok_inj (sym k.result) in
      let signed = subst (IsSignedIn w k.user registered) a (
        authenticate-IsSignedIn w email password registered k.user k.indexed k.on
          (rw k.hashed (sound.verifies k.calls password))) in
      let tokens : signed.pair ≡ pair = ok_inj (sym signed.result) in
      subst
        (λ p.
          (get_current_user w p signed_in).0
          ≡ ok (record user { last_login = some (w.now registered.calls) }))
        (sym signed.access ∙ ap (λ p. p.access_token) tokens)
        (get_current_user-known signed_in signed.seen _ signed.jti signed.stored
            (ap (λ u. u.is_active) signed.touched ∙ k.on) early
          ∙ ap {A = User} ok (
              signed.touched
              ∙ ap {A = User} (λ u. record u { last_login = some (w.now registered.calls) }) same))
