-- ===== src/Presentation/Failures.antt =====
-- When the routes of tenants fail, and how the others answer.
use eu_saas.Pagination.{offset, pagination_params}
use eu_saas.Prelude.{
  Option, subst, false≢true, ℕ, ◌≡◌, refl, String, Bool, true, false, ◌||◌, Bool-cases, inl, inr,
  Option-cases, none, List, [], ◌∷◌, any, arith,
}
use eu_saas.Domain.Tenant as Domain
use eu_saas.Domain.Tenant.{Tenant, TenantStatus, status_value}
use eu_saas.Adapters.Tenants as Repo
use eu_saas.Container.{Container, World, running}
use eu_saas.Services.Tenants as TenantService
use eu_saas.Services.Tenants.{schema_name_of}
use eu_saas.Presentation.{validation_error, is_page, internal_server_error, Response, respond}
use eu_saas.Presentation.Schemas.{Validators, parse_status}
use eu_saas.Presentation.Tenants.{domain_status, tenant_to_response, all_to_response, list_tenants}

-- The model of an answer has no such status.
abbrev pub is_unlisted : TenantStatus → Bool
is_unlisted Domain.provisioning = true
is_unlisted Domain.deleted = true
is_unlisted other = false

parse_status-unlisted :
    (status : TenantStatus) → is_unlisted status ≡ true → parse_status (status_value status) ≡ none
unfolding parse_status
parse_status-unlisted Domain.pending e = ground arith
parse_status-unlisted Domain.provisioning e = refl
parse_status-unlisted Domain.active e = ground arith
parse_status-unlisted Domain.suspended e = ground arith
parse_status-unlisted Domain.deprovisioning e = ground arith
parse_status-unlisted Domain.deleted e = refl

module _ (v : Validators) where
  tenant_to_response-unlisted :
      (t : Tenant) → is_unlisted t.status ≡ true → tenant_to_response v t ≡ none
  unfolding tenant_to_response
  tenant_to_response-unlisted t e = rw (parse_status-unlisted t.status e) refl

  all_to_response-unlisted :
      (tenants : List Tenant)
      → any (λ t. is_unlisted t.status) tenants ≡ true
      → all_to_response v tenants ≡ none
  all_to_response-unlisted [] e = elim (false≢true e) [ ]
  all_to_response-unlisted (t ∷ tenants) e = elim (Bool-cases (is_unlisted t.status)) [
    | inl here ↦ rw (tenant_to_response-unlisted t here) refl
    | inr other ↦
        let rest =
          all_to_response-unlisted tenants
            (subst (λ b. (b || any (λ u. is_unlisted u.status) tenants) ≡ true) other e) in
        elim (Option-cases (tenant_to_response v t)) [
          | inl fails ↦ rw fails refl
          | inr (item, made) ↦ rw (made, rest) refl
        ]
  ]

module _ (w : World) (v : Validators) (path : String) where
  -- If the page and its size are within the bounds of the query, and a tenant on the page, with the
  -- status that the query asks for or with any if it asks for none, is PROVISIONING or DELETED, the
  -- client gets the problem for an internal error instead of the list.
  pub list_tenants-unlisted :
      (page page_size : ℕ) (status_filter : Option String) (s : Container)
      → is_page page page_size ≡ true
      → let params = pagination_params page page_size in
        any
            (λ t. is_unlisted t.status)
            (Repo.list_tenants s.tenants
              (offset params)
              params.size
              (domain_status status_filter)).0
          ≡ true
        → respond w path (list_tenants w v page page_size status_filter) s
          ≡ (Response.problem (internal_server_error path), s)
  unfolding respond list_tenants TenantService.list_tenants running
  list_tenants-unlisted page page_size status_filter s within e =
      rw (within, all_to_response-unlisted v _ e) refl

  -- Outside these bounds, it gets the problem for a request that is not valid.
  pub list_tenants-invalid :
      (page page_size : ℕ) (status_filter : Option String) (s : Container)
      → is_page page page_size ≡ false
      → respond w path (list_tenants w v page page_size status_filter) s
        ≡ (Response.problem (validation_error path), s)
  unfolding respond list_tenants running
  list_tenants-invalid page page_size status_filter s outside = rw outside refl
