-- ===== src/Repository/Tenants.antt =====
-- TenantRepository
use eu_saas.Prelude.{
  ℕ, String, Bool, true, false, Option, none, some, List, [], ◌∷◌, filter, ◌==◌, string_eq, nat_eq,
  nat_beq,
}
use eu_saas.Domain.Values.{Uuid, Time, Attributes}
use eu_saas.Repository.Sql.{
  Answer, scalar_one_or_none, Row, order_by_desc, page, has_id, insert_row, update_rows,
  delete_rows,
}

pub data TenantStatus : Type 0 where
  active suspended deactivated pending : TenantStatus

pub data TenantTier : Type 0 where
  free starter professional enterprise : TenantTier

abbrev position : TenantStatus → ℕ
position active = 0
position suspended = 1
position deactivated = 2
position pending = 3

abbrev pub status_beq : TenantStatus → TenantStatus → Bool
status_beq a b = nat_beq (position a) (position b)

pub record TenantModel : Type 0 where
  pub id : Uuid
  pub name : String
  pub slug : String
  pub status : TenantStatus
  pub tier : TenantTier
  pub domain : Option String
  pub metadata_json : Option Attributes
  pub data_residency_region : String
  pub max_users : ℕ
  pub is_gdpr_compliant : Bool
  pub created_at : Time
  pub updated_at : Time

-- `uq_tenants_slug`
instance abbrev pub tenant_row : Row TenantModel
tenant_row = record { id_of = λ t. t.id; clash = λ t u. u.slug == t.slug }

-- The arguments of `create`.
pub record NewTenant : Type 0 where
  pub name : String
  pub slug : String
  pub tier : TenantTier
  pub domain : Option String
  pub data_residency_region : String
  pub max_users : ℕ
  pub metadata_json : Option Attributes

-- The keyword arguments of `update`, `unlisted` for a name that is not allowed.
pub data TenantField : Type 0 where
  name slug data_residency_region : String → TenantField
  status : TenantStatus → TenantField
  tier : TenantTier → TenantField
  domain : Option String → TenantField
  max_users : ℕ → TenantField
  is_gdpr_compliant : Bool → TenantField
  metadata_json : Option Attributes → TenantField
  unlisted : String → TenantField

abbrev pub is_allowed : TenantField → Bool
is_allowed (unlisted _) = false
is_allowed _ = true

abbrev pub set_field : TenantField → TenantModel → TenantModel
set_field (name x) t = record t { name = x }
set_field (slug x) t = record t { slug = x }
set_field (data_residency_region x) t = record t { data_residency_region = x }
set_field (status x) t = record t { status = x }
set_field (tier x) t = record t { tier = x }
set_field (domain x) t = record t { domain = x }
set_field (max_users x) t = record t { max_users = x }
set_field (is_gdpr_compliant x) t = record t { is_gdpr_compliant = x }
set_field (metadata_json x) t = record t { metadata_json = x }
set_field (unlisted x) t = t

abbrev pub set_fields : List TenantField → TenantModel → TenantModel
set_fields [] t = t
set_fields (f ∷ fields) t = set_fields fields (set_field f t)

-- The row after an `UPDATE`, with `onupdate=func.now()`.
abbrev pub after_update : List TenantField → Time → TenantModel → TenantModel
after_update fields now t = record (set_fields fields t) { updated_at = now }

abbrev pub new_row : Uuid → Time → NewTenant → TenantModel
new_row id now t = record {
  id = id;
  name = t.name;
  slug = t.slug;
  status = pending;
  tier = t.tier;
  domain = t.domain;
  metadata_json = t.metadata_json;
  data_residency_region = t.data_residency_region;
  max_users = t.max_users;
  is_gdpr_compliant = true;
  created_at = now;
  updated_at = now;
}

-- `none` is an `IntegrityError`.
unfoldable pub create : Uuid → Time → NewTenant → List TenantModel → Option (List TenantModel)
create id now t rows = insert_row (new_row id now t) rows

unfoldable pub get_by_id : List TenantModel → Uuid → Answer TenantModel
get_by_id rows tenant_id = scalar_one_or_none (filter (has_id tenant_id) rows)

unfoldable pub get_by_slug : List TenantModel → String → Answer TenantModel
get_by_slug rows wanted = scalar_one_or_none (filter (λ t. t.slug == wanted) rows)

abbrev pub is_listed : Option TenantStatus → TenantModel → Bool
is_listed none t = true
is_listed (some wanted) t = status_beq t.status wanted

unfoldable pub list_all :
    List TenantModel → Option TenantStatus → (offset limit : ℕ) → List TenantModel
list_all rows wanted offset limit =
    page offset limit (order_by_desc (λ t. t.created_at) (filter (is_listed wanted) rows))

abbrev updated_or :
    Option (List TenantModel × List TenantModel)
    → List TenantModel
    → Option (Answer TenantModel) × List TenantModel
updated_or none rows = (none, rows)
updated_or (some (returned, rows')) rows = (some (scalar_one_or_none returned), rows')

abbrev pub update_allowed :
    List TenantField
    → Uuid
    → Time
    → List TenantModel
    → Option (Answer TenantModel) × List TenantModel
update_allowed [] tenant_id now rows = (some (get_by_id rows tenant_id), rows)
update_allowed (f ∷ fields) tenant_id now rows =
    updated_or (update_rows tenant_id (after_update (f ∷ fields) now) rows) rows

unfoldable pub update :
    Uuid
    → List TenantField
    → Time
    → List TenantModel
    → Option (Answer TenantModel) × List TenantModel
update tenant_id fields now rows = update_allowed (filter is_allowed fields) tenant_id now rows

unfoldable pub delete : Uuid → List TenantModel → Bool × List TenantModel
delete tenant_id rows = delete_rows tenant_id rows
