-- ===== src/Tests/Guards.antt =====
-- The middleware, the schema manager and the retention engine at concrete values.
use eu_saas.Prelude.{ℕ, ◌+◌, ◌≡◌, ◌⊎◌, refl, true, none, some, List, [], ◌∷◌, All, arith}
use eu_saas.Text.{replace_dashes}
use eu_saas.Domain.Values.{text}
use eu_saas.TenantContext.{
  TenantContext, TenantRecord, Request, Environment, is_public, extract_tenant_id, resolve_tenant,
  dispatch,
}
use eu_saas.TenantContext.Isolation.{IsServed, dispatch-IsServed}
use eu_saas.SchemaManager.{matches_slug, matches_rest, sanitise_slug}
use eu_saas.SchemaManager.Names.{IsIdentifier, sanitise_slug-IsIdentifier}
use eu_saas.Retention as Engine
use eu_saas.Retention.{
  DataCategory, transactional, log, user_activity, uploaded_file, ExpiredRecord, RetentionDatabase,
  default_policy, is_eligible, hard_delete_records, scan_expired_records,
}
use eu_saas.Retention.Laws.{IsDue, hard_delete_records-IsDue}

abbrev acme : TenantRecord
acme = record {
  slug = some "acme";
  schema_name = some "tenant_acme";
  tier = none;
  status = some "ACTIVE";
}

abbrev environment : Environment
environment = record {
  str = λ v. elim v [ text t ↦ t | _ ↦ "" ];
  parse_uuid = λ t. some 7;
  str_uuid = λ id. "7";
  hex_prefix = λ id. "7";
  repository = some (λ id. some acme);
}

abbrev request : Request
request = record { path = "/api/v1/tenants"; jwt_claims = none; x_tenant_id = some "7" }

abbrev context : TenantContext
context = record {
  tenant_id = 7;
  tenant_slug = "acme";
  schema_name = "tenant_acme";
  tier = "FREE";
  status = "ACTIVE";
}

dispatch-IsServed_example :
    (c : TenantContext) × (some context ≡ some c) × IsServed environment (λ id. some acme) request c
unfolding dispatch is_public extract_tenant_id resolve_tenant
dispatch-IsServed_example =
    dispatch-IsServed environment (λ id. some acme) request (some context) refl refl refl

-- The application as it is put together: no repository.
abbrev unwired : Environment
unwired = record environment { repository = none }

sanitise_slug-IsIdentifier_example : IsIdentifier "acme_eu"
unfolding sanitise_slug matches_slug matches_rest replace_dashes
sanitise_slug-IsIdentifier_example =
    sanitise_slug-IsIdentifier "acme-eu" "acme_eu" (ground arith) refl

abbrev row : ExpiredRecord
row = record {
  tenant_id = "acme";
  table_name = "logs";
  record_id = "1";
  category = log;
  created_at = 0;
  expired_at = 1;
  soft_deleted = true;
  soft_deleted_at = some 5;
}

-- A database with that row, whose clock stands at 31 days.
abbrev database : RetentionDatabase ℕ
database = record {
  find_expired_records = λ tenant_id category cutoff s. (Engine.returned (row ∷ []), s);
  soft_delete = λ records s. (Engine.returned 1, s + 1);
  hard_delete = λ records s. (Engine.returned 1, s + 1);
  now = λ s. (2678400000000, s);
}

hard_delete_records-IsDue_example :
    (All (λ r. ¬ IsDue 2678400000000 default_policy r) (row ∷ [])
      × (hard_delete_records database (row ∷ []) none 0 ≡ (Engine.returned 0, 0)))
    ⊎ ((r : ExpiredRecord) × (rs : List ExpiredRecord) × All
          (IsDue 2678400000000 default_policy)
          (r ∷ rs)
        × (hard_delete_records database (row ∷ []) none 0 ≡ database.hard_delete (r ∷ rs) 0))
hard_delete_records-IsDue_example = hard_delete_records-IsDue database (row ∷ []) none 0
