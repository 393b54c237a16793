-- ===== src/Adapters/Users.antt =====
-- `InMemoryUserRepository`
use eu_saas.Prelude.{
  ℕ, String, Option, none, some, length, filter, ◌==◌, nat_eq, string_eq, Dict, values, lookup,
  insert,
}
use eu_saas.Domain.Values.{Uuid}
use eu_saas.Domain.User.{User}

pub record UserRepo : Type 0 where
  pub store : Dict Uuid User
  pub by_email : Dict String Uuid

unfoldable pub get_by_id : UserRepo → Uuid → Option User
get_by_id r user_id = lookup user_id r.store

abbrev look_up_id : UserRepo → Option Uuid → Option User
look_up_id r none = none
look_up_id r (some uid) = lookup uid r.store

unfoldable pub get_by_email : UserRepo → String → Option User
get_by_email r email = look_up_id r (lookup email r.by_email)

unfoldable pub count_by_tenant : UserRepo → Uuid → ℕ
count_by_tenant r tenant_id = length (filter (λ u. u.tenant_id == tenant_id) (values r.store))

unfoldable pub save : User → UserRepo → UserRepo
save user r = record {
  store = insert user.id user r.store;
  by_email = insert user.email user.id r.by_email;
}

unfoldable pub update : User → UserRepo → UserRepo
update user r = record r { store = insert user.id user r.store }
