-- ===== src/Repository/Users.antt =====
-- UserRepository
use eu_saas.Prelude.{
  ℕ, String, Bool, true, false, not, Option, none, some, List, [], ◌∷◌, ◌&&◌, filter, ◌==◌,
  string_eq, nat_eq,
}
use eu_saas.Domain.Values.{Uuid, Time}
use eu_saas.Repository.Sql.{
  Answer, scalar_one_or_none, Row, order_by_desc, page, has_id, insert_row, update_rows,
  delete_rows,
}

pub data UserRole : Type 0 where
  owner admin member viewer : UserRole

pub record UserModel : Type 0 where
  pub id : Uuid
  pub tenant_id : Uuid
  pub email : String
  pub display_name : String
  pub hashed_password : String
  pub role : UserRole
  pub is_active : Bool
  pub last_login_at : Option Time
  pub created_at : Time
  pub updated_at : Time

-- `uq_users_email`
instance abbrev pub user_row : Row UserModel
user_row = record { id_of = λ u. u.id; clash = λ u v. v.email == u.email }

-- The keyword arguments of `update`, `unlisted` for a name that is not allowed.
pub data UserField : Type 0 where
  email display_name hashed_password : String → UserField
  role : UserRole → UserField
  is_active : Bool → UserField
  last_login_at : Option Time → UserField
  unlisted : String → UserField

abbrev pub is_allowed : UserField → Bool
is_allowed (unlisted _) = false
is_allowed _ = true

abbrev pub set_field : UserField → UserModel → UserModel
set_field (email x) u = record u { email = x }
set_field (display_name x) u = record u { display_name = x }
set_field (hashed_password x) u = record u { hashed_password = x }
set_field (role x) u = record u { role = x }
set_field (is_active x) u = record u { is_active = x }
set_field (last_login_at x) u = record u { last_login_at = x }
set_field (unlisted x) u = u

abbrev pub set_fields : List UserField → UserModel → UserModel
set_fields [] u = u
set_fields (f ∷ fields) u = set_fields fields (set_field f u)

abbrev pub after_update : List UserField → Time → UserModel → UserModel
after_update fields now u = record (set_fields fields u) { updated_at = now }

-- `none` is an `IntegrityError`.
unfoldable pub create :
    Uuid
    → Time
    → (tenant_id : Uuid) (address full_name password_hash : String) → UserRole
    → List UserModel
    → Option (List UserModel)
create id now tenant_id address full_name password_hash granted rows =
    insert_row
      (record {
        id = id;
        tenant_id = tenant_id;
        email = address;
        display_name = full_name;
        hashed_password = password_hash;
        role = granted;
        is_active = true;
        last_login_at = none;
        created_at = now;
        updated_at = now;
      })
      rows

unfoldable pub get_by_id : List UserModel → Uuid → Answer UserModel
get_by_id rows user_id = scalar_one_or_none (filter (has_id user_id) rows)

unfoldable pub get_by_email : List UserModel → String → Answer UserModel
get_by_email rows wanted = scalar_one_or_none (filter (λ u. u.email == wanted) rows)

abbrev pub bool_beq : Bool → Bool → Bool
bool_beq true b = b
bool_beq false b = not b

abbrev pub is_listed : Option Bool → UserModel → Bool
is_listed none u = true
is_listed (some wanted) u = bool_beq u.is_active wanted

unfoldable pub list_by_tenant :
    List UserModel → Uuid → Option Bool → (offset limit : ℕ) → List UserModel
list_by_tenant rows tenant_id wanted offset limit = page offset limit (
    order_by_desc (λ u. u.created_at)
      (filter (λ u. (u.tenant_id == tenant_id) && is_listed wanted u) rows))

abbrev updated_or :
    Option (List UserModel × List UserModel)
    → List UserModel
    → Option (Answer UserModel) × List UserModel
updated_or none rows = (none, rows)
updated_or (some (returned, rows')) rows = (some (scalar_one_or_none returned), rows')

abbrev pub update_allowed :
    List UserField → Uuid → Time → List UserModel → Option (Answer UserModel) × List UserModel
update_allowed [] user_id now rows = (some (get_by_id rows user_id), rows)
update_allowed (f ∷ fields) user_id now rows =
    updated_or (update_rows user_id (after_update (f ∷ fields) now) rows) rows

unfoldable pub update :
    Uuid → List UserField → Time → List UserModel → Option (Answer UserModel) × List UserModel
update user_id fields now rows = update_allowed (filter is_allowed fields) user_id now rows

unfoldable pub delete : Uuid → List UserModel → Bool × List UserModel
delete user_id rows = delete_rows user_id rows
