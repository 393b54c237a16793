-- ===== src/Presentation/Tenants.antt =====
-- src/presentation/api/v1/tenants.py
use eu_saas.Prelude.{
  bind, ℕ, String, Option, none, some, List, [], ◌∷◌, ◌++◌, lookup, string_eq, ◌==◌, if◌then◌else◌,
}
use eu_saas.Domain.Values.{Uuid, Value, text, Attributes}
use eu_saas.Domain.Tenant as Domain
use eu_saas.Domain.Tenant.{Tenant, status_value}
use eu_saas.Container.{World, Action, ◌>>=◌, pure}
use eu_saas.Pagination.{PaginatedResponse, pages}
use eu_saas.Services.Tenants as TenantService
use eu_saas.Services.Tenants.{Update, set_name, set_settings, set_metadata}
use eu_saas.Presentation.{is_page, Outcome, serialised}
use eu_saas.Presentation.Schemas.{
  Validators, TenantTier, free, tier_value, parse_status, parse_tier, TenantCreate, TenantUpdate,
  TenantResponse, TenantListResponse,
}

-- A value where the model wants a text.
abbrev pub text_of : Value → Option String
text_of (text t) = some t
text_of other = none

abbrev text_or : String → Option Value → Option String
text_or default none = some default
text_or default (some value) = text_of value

abbrev pub default_region : String
default_region = "eu-central-1"

-- `TenantTier(tenant.settings.get("tier", "FREE")) if tenant.settings else TenantTier.FREE`
abbrev pub tier_of : Attributes → Option TenantTier
tier_of [] = some free
tier_of (entry ∷ settings) = bind (text_or "FREE" (lookup "tier" (entry ∷ settings))) parse_tier

-- `none` is a `ValidationError` or a `ValueError`.
unfoldable pub tenant_to_response : Validators → Tenant → Option TenantResponse
tenant_to_response v tenant = bind (parse_status (status_value tenant.status)) λ status.
    bind (tier_of tenant.settings) λ tier.
      bind (text_or default_region (lookup "data_residency_region" tenant.metadata)) λ region.
        bind (v.email_str tenant.owner_email) λ admin_email. some (record {
          id = tenant.id;
          name = tenant.name;
          slug = tenant.slug;
          status = status;
          tier = tier;
          schema_name = tenant.schema_name;
          data_residency_region = region;
          admin_email = admin_email;
          metadata = some tenant.metadata;
          created_at = tenant.created_at;
          updated_at = tenant.updated_at;
        })

abbrev pub all_to_response : Validators → List Tenant → Option (List TenantResponse)
all_to_response v [] = some []
all_to_response v (t ∷ tenants) =
    bind (tenant_to_response v t)
      λ item. bind (all_to_response v tenants) λ items. some (item ∷ items)

abbrev page_to_response : PaginatedResponse Tenant → List TenantResponse → TenantListResponse
page_to_response result items = record {
  items = items;
  pagination = record {
    page = result.page;
    page_size = result.size;
    total_items = result.total;
    total_pages = pages result;
  };
}

-- `DomainTenantStatus(status_filter)` where the query gives one that is not empty: `None` if there is
-- no such status.
abbrev pub domain_status : Option String → Option Domain.TenantStatus
domain_status none = none
domain_status (some value) =
    if value == "PENDING"
    then some Domain.pending
    else if value == "PROVISIONING"
    then some Domain.provisioning
    else if value == "ACTIVE"
    then some Domain.active
    else if value == "SUSPENDED"
    then some Domain.suspended
    else if value == "DEPROVISIONING"
    then some Domain.deprovisioning
    else if value == "DELETED"
    then some Domain.deleted
    else none

abbrev entry_of : {A : Type 0} → (A → Update) → Option A → List Update
entry_of f none = []
entry_of f (some a) = f a ∷ []

-- `body.model_dump(exclude_none=True)`
abbrev pub updates : TenantUpdate → List Update
updates body =
    entry_of set_name body.name
    ++ entry_of (λ tier. Update.other "tier") body.tier
    ++ entry_of set_metadata body.metadata
    ++ entry_of set_settings body.settings

-- The settings that a body asks for.
abbrev pub settings_of : TenantCreate → Attributes
settings_of body =
    ("tier", text (tier_value body.tier))
    ∷ ("data_residency_region", text body.data_residency_region)
    ∷ []

module _ (w : World) (v : Validators) where
  unfoldable pub create_tenant : TenantCreate → Action (Outcome TenantResponse)
  create_tenant body = do
    tenant ←
        TenantService.create_tenant w body.name body.slug body.admin_email (some (settings_of body))
    pure (serialised 201 (tenant_to_response v tenant))

  abbrev pub listed_page : ℕ → ℕ → Option String → Action (Outcome TenantListResponse)
  listed_page page page_size status_filter = do
    result ← TenantService.list_tenants page page_size (domain_status status_filter)
    pure (
        serialised 200
          (bind (all_to_response v result.items) λ items. some (page_to_response result items)))

  unfoldable pub list_tenants : ℕ → ℕ → Option String → Action (Outcome TenantListResponse)
  list_tenants page page_size status_filter =
      if is_page page page_size
      then listed_page page page_size status_filter
      else pure Outcome.invalid

  unfoldable pub get_tenant : Uuid → Action (Outcome TenantResponse)
  get_tenant tenant_id = do
    tenant ← TenantService.get_tenant tenant_id
    pure (serialised 200 (tenant_to_response v tenant))

  unfoldable pub update_tenant : Uuid → TenantUpdate → Action (Outcome TenantResponse)
  update_tenant tenant_id body = do
    tenant ← TenantService.update_tenant w tenant_id (updates body)
    pure (serialised 200 (tenant_to_response v tenant))

  unfoldable pub suspend_tenant : Uuid → Action (Outcome TenantResponse)
  suspend_tenant tenant_id = do
    tenant ← TenantService.suspend_tenant w tenant_id
    pure (serialised 200 (tenant_to_response v tenant))

  unfoldable pub activate_tenant : Uuid → Action (Outcome TenantResponse)
  activate_tenant tenant_id = do
    tenant ← TenantService.activate_tenant w tenant_id
    pure (serialised 200 (tenant_to_response v tenant))

  unfoldable pub delete_tenant : Uuid → Action (Outcome (List (String × String)))
  delete_tenant tenant_id = do
    tenant ← TenantService.deprovision_tenant w tenant_id
    pure (
        Outcome.answered 202 (
          ("status", status_value tenant.status)
          ∷ ("tenant_id", w.digest.str_uuid tenant.id)
          ∷ ("message", "Tenant deprovisioning has been initiated.")
          ∷ []))
