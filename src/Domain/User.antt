-- ===== src/Domain/User.antt =====
-- src/domain/models/user.py
use eu_saas.Prelude.{String, Bool, Option}
use eu_saas.Domain.Values.{Uuid, Time}

pub data TenantRole : Type 0 where
  owner admin member viewer : TenantRole

abbrev pub role_value : TenantRole → String
role_value owner = "OWNER"
role_value admin = "ADMIN"
role_value member = "MEMBER"
role_value viewer = "VIEWER"

pub record User : Type 0 where
  pub id : Uuid
  pub tenant_id : Uuid
  pub email : String
  pub hashed_password : String
  pub full_name : String
  pub role : TenantRole
  pub is_active : Bool
  pub created_at : Time
  pub last_login : Option Time
