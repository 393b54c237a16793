-- ===== src/Presentation/Schemas.antt =====
-- src/presentation/api/v1/schemas.py: the bodies of requests and answers, and what pydantic checks.
use eu_saas.Prelude.{
  none_or, ℕ, zero, suc, String, Bool, true, false, not, ◌&&◌, ◌||◌, Option, none, some, List, [],
  ◌∷◌, any, leb, ltb, nat_beq, ◌==◌, string_eq, if◌then◌else◌, ◌%◌, ◌/◌,
}
use eu_saas.Text.{codes}
use eu_saas.Domain.Values.{Uuid, Time, Date, Attributes}
use eu_saas.Domain.Decimal.{Decimal}

-- What pydantic and Python decide about texts: `EmailStr` gives the normalised address or refuses
-- it, and the tests of `str` on a code point.
pub record Validators : Type 0 where
  pub email_str : String → Option String
  pub isupper : ℕ → Bool
  pub islower : ℕ → Bool
  pub isdigit : ℕ → Bool
  pub isalnum : ℕ → Bool

pub data TenantStatus : Type 0 where
  active suspended pending deprovisioning : TenantStatus

pub data TenantTier : Type 0 where
  free starter professional enterprise : TenantTier

abbrev pub tier_value : TenantTier → String
tier_value free = "FREE"
tier_value starter = "STARTER"
tier_value professional = "PROFESSIONAL"
tier_value enterprise = "ENTERPRISE"

-- `TenantStatus(value)`: `none` is a `ValueError`.
unfoldable pub parse_status : String → Option TenantStatus
parse_status value =
    if value == "ACTIVE"
    then some active
    else if value == "SUSPENDED"
    then some suspended
    else if value == "PENDING"
    then some pending
    else if value == "DEPROVISIONING"
    then some deprovisioning
    else none

-- `TenantTier(value)`
unfoldable pub parse_tier : String → Option TenantTier
parse_tier value =
    if value == "FREE"
    then some free
    else if value == "STARTER"
    then some starter
    else if value == "PROFESSIONAL"
    then some professional
    else if value == "ENTERPRISE"
    then some enterprise
    else none

pub data GdprExportState : Type 0 where
  export_pending processing completed failed expired : GdprExportState

pub record PaginationMeta : Type 0 where
  pub page : ℕ
  pub page_size : ℕ
  pub total_items : ℕ
  pub total_pages : ℕ

abbrev length_of : List ℕ → ℕ
length_of [] = 0
length_of (c ∷ cs) = suc (length_of cs)

-- `min_length` and `max_length`
abbrev pub has_length : ℕ → ℕ → String → Bool
has_length least most text = let n = length_of (codes text) in leb least n && leb n most

abbrev pub is_lower_or_digit : ℕ → Bool
is_lower_or_digit c = (leb b'a' c && leb c b'z') || (leb b'0' c && leb c b'9')

-- `^[a-z0-9]+(?:-[a-z0-9]+)*$`, where `started` says that a character stands before, and that it is
-- not a hyphen.
abbrev pub matches_slug : Bool → List ℕ → Bool
matches_slug started [] = started
matches_slug started (c ∷ cs) =
    let after_letter = matches_slug true cs in
    let after_hyphen = matches_slug false cs in
    if is_lower_or_digit c then after_letter else nat_beq c b'-' && started && after_hyphen

pub record TenantCreate : Type 0 where
  pub name : String
  pub slug : String
  pub tier : TenantTier
  pub admin_email : String
  pub data_residency_region : String
  pub metadata : Option Attributes

-- The constraints of the fields; the address is normalised before.
unfoldable pub is_tenant_create : TenantCreate → Bool
is_tenant_create body =
    has_length 2 128 body.name && has_length 2 64 body.slug && matches_slug false (codes body.slug)

pub record TenantUpdate : Type 0 where
  pub name : Option String
  pub tier : Option TenantTier
  pub metadata : Option Attributes
  pub settings : Option Attributes

unfoldable pub is_tenant_update : TenantUpdate → Bool
is_tenant_update body = none_or (has_length 2 128) body.name

pub record TenantResponse : Type 0 where
  pub id : Uuid
  pub name : String
  pub slug : String
  pub status : TenantStatus
  pub tier : TenantTier
  pub schema_name : String
  pub data_residency_region : String
  pub admin_email : String
  pub metadata : Option Attributes
  pub created_at : Time
  pub updated_at : Time

pub record TenantListResponse : Type 0 where
  pub items : List TenantResponse
  pub pagination : PaginationMeta

pub record UserRegister : Type 0 where
  pub email : String
  pub password : String
  pub full_name : String

-- `_validate_password_strength`
unfoldable pub is_strong : Validators → String → Bool
is_strong v password =
    let raw = codes password in
    any v.isupper raw && any v.islower raw && any v.isdigit raw && any (λ c. not (v.isalnum c)) raw

unfoldable pub is_user_register : Validators → UserRegister → Bool
is_user_register v body =
    has_length 10 128 body.password && is_strong v body.password && has_length 1 256 body.full_name

pub record UserLogin : Type 0 where
  pub email : String
  pub password : String

unfoldable pub is_user_login : UserLogin → Bool
is_user_login body = ltb 0 (length_of (codes body.password))

pub record TokenResponse : Type 0 where
  pub access_token : String
  pub refresh_token : String
  pub token_type : String
  pub expires_in : ℕ

pub record UserResponse : Type 0 where
  pub id : Uuid
  pub tenant_id : Uuid
  pub email : String
  pub full_name : String
  pub role : String
  pub is_active : Bool
  pub created_at : Time
  pub last_login_at : Option Time

-- The places of a decimal without its trailing zeros.
abbrev significant : ℕ → ℕ → ℕ
significant zero digits = 0
significant (suc places) digits =
    let fewer = significant places (digits / 10) in
    if nat_beq (digits % 10) 0 then fewer else suc places

-- `decimal_places=most`
unfoldable pub has_places : ℕ → Decimal → Bool
has_places most a = leb (significant a.places a.digits) most

pub record CostLineItem : Type 0 where
  pub service : String
  pub amount : Decimal
  pub currency : String
  pub unit : String
  pub quantity : Decimal

pub record CostBreakdown : Type 0 where
  pub tenant_id : Uuid
  pub period_start : Date
  pub period_end : Date
  pub total_amount : Decimal
  pub currency : String
  pub line_items : List CostLineItem

pub record CostProjection : Type 0 where
  pub tenant_id : Uuid
  pub billing_period_start : Date
  pub billing_period_end : Date
  pub actual_to_date : Decimal
  pub projected_total : Decimal
  pub confidence_interval_low : Decimal
  pub confidence_interval_high : Decimal
  pub currency : String

pub record GdprExportStatus : Type 0 where
  pub job_id : Uuid
  pub tenant_id : Uuid
  pub status : GdprExportState
  pub requested_at : Time
  pub completed_at : Option Time
  pub expires_at : Option Time
  pub download_url : Option String
  pub error_message : Option String

pub record GdprErasureRequest : Type 0 where
  pub data_subject_id : Uuid
  pub reason : Option String

unfoldable pub is_erasure_request : GdprErasureRequest → Bool
is_erasure_request body = none_or (has_length 0 1024) body.reason

pub record GdprErasureResponse : Type 0 where
  pub job_id : Uuid
  pub tenant_id : Uuid
  pub data_subject_id : Uuid
  pub status : String
  pub estimated_completion : Option Time

pub record RetentionPolicyRequest : Type 0 where
  pub default_retention_days : ℕ
  pub audit_log_retention_days : ℕ
  pub backup_retention_days : ℕ
  pub pii_retention_days : Option ℕ

abbrev within : ℕ → ℕ → ℕ → Bool
within least most n = leb least n && leb n most

unfoldable pub is_retention_policy_request : RetentionPolicyRequest → Bool
is_retention_policy_request body =
    within 1 3650 body.default_retention_days
    && within 30 3650 body.audit_log_retention_days
    && within 7 365 body.backup_retention_days
    && none_or (within 1 3650) body.pii_retention_days

pub record RetentionPolicyResponse : Type 0 where
  pub tenant_id : Uuid
  pub default_retention_days : ℕ
  pub audit_log_retention_days : ℕ
  pub backup_retention_days : ℕ
  pub pii_retention_days : Option ℕ
  pub updated_at : Time
  pub updated_by : Uuid
