-- ===== src/Services/Auth/Tokens.antt =====
-- What becomes of refresh tokens.
use eu_saas.Prelude.{
  ◌+◌, ◌≤◌, ◌↔◌, ℕ, ◌≡◌, ◌≢◌, refl, String, Bool-cases, inl, inr, Option-cases, none, some, lookup,
  nat_eq, string_eq, lookup-insert_ne, lookup-remove_self, arith, ltb,
}
use eu_saas.Domain.Values.{Uuid, Time}
use eu_saas.Domain.User.{User}
use eu_saas.Domain.Errors.{invalid_token}
use eu_saas.Adapters.Tokens as RefreshStore
use eu_saas.Adapters.Users as UserRepo
use eu_saas.Container.{err, Container, World, running}
use eu_saas.Services.Auth.{
  refresh_token, issue_token_pair, create_access_token, create_refresh_token, revoke_token,
}

-- A token is accepted for a user exactly if it is stored for it and has not expired; the moment of
-- its expiry is included.
pub validate-good :
    (token : String) (now : Time) (tokens : RefreshStore.TokenStore) (u : Uuid)
    → ((RefreshStore.validate token now tokens).0 ≡ some u)
      ↔ ((expires_at : Time) × (lookup token tokens ≡ some (u, expires_at)) × (now ≤ expires_at))
unfolding RefreshStore.validate
validate-good token now tokens u = elim (Option-cases (lookup token tokens)) [
  | inl e ↦ rw e (λ h. ground arith, λ (t, same, late). ground (arith, same))
  | inr ((v, t), e) ↦ rw e (
    λ h. (t, ground (arith, h), ground (arith, h)),
    λ (x, same, late). ground (arith, same, late),
  )
]

module _ (w : World) (token : String) (other : (n : ℕ) → w.token_urlsafe n ≢ token) where
  -- The tokens after the issue of a new pair: an old one that was not there is not there.
  spent-issue :
      (user : User) (s : Container)
      → lookup token s.tokens ≡ none
      → lookup token (issue_token_pair w user s).1.tokens ≡ none
  unfolding issue_token_pair create_access_token create_refresh_token running RefreshStore.store
  spent-issue user s gone = rw (lookup-insert_ne _ token _ s.tokens (other _)) gone

  refresh_token-spent : (s : Container) → lookup token (refresh_token w token s).1.tokens ≡ none
  unfolding refresh_token running RefreshStore.validate RefreshStore.revoke UserRepo.get_by_id
  refresh_token-spent s = elim (Option-cases (lookup token s.tokens)) [
    | inl e ↦ rw e e
    | inr ((u, t), e) ↦ elim (Bool-cases (ltb t (w.now s.calls))) [
      | inl late ↦ rw (e, late) (lookup-remove_self token s.tokens)
      | inr good ↦ elim (Option-cases (lookup u s.users.store)) [
        | inl nobody ↦ rw (e, good, nobody) (lookup-remove_self token s.tokens)
        | inr (user, known) ↦ elim (Bool-cases user.is_active) [
          | inl on ↦
              rw (e, good, known, on)
                (spent-issue _ (revoke_token token (record s { calls = s.calls + 1 }))
                  (lookup-remove_self token s.tokens))
          | inr off ↦ rw (e, good, known, off) (lookup-remove_self token s.tokens)
        ]
      ]
    ]
  ]

  refresh_token-refused :
      (s : Container)
      → lookup token s.tokens ≡ none
      → (refresh_token w token s).0 ≡ err (invalid_token "Refresh token is invalid or expired")
  unfolding refresh_token running RefreshStore.validate
  refresh_token-refused s e = rw e refl

  -- If new refresh tokens differ from this one, it is refused the second time that it is presented,
  -- whatever came of the first.
  pub refresh_token-once :
      (s : Container)
      → (refresh_token w token (refresh_token w token s).1).0
        ≡ err (invalid_token "Refresh token is invalid or expired")
  refresh_token-once s = refresh_token-refused _ (refresh_token-spent s)
