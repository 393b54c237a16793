-- ===== src/Container/Outside.antt =====
-- What the services call and do not implement. A field that takes a number first answers the
-- call of that number, so it may answer differently each time.
use eu_saas.Prelude.{ℕ, String, Option, List, [], length}
use eu_saas.Domain.Values.{Uuid, Time, Date, Attributes}
use eu_saas.Domain.Audit.{Digest}
use eu_saas.Domain.Decimal.{Decimal}
use eu_saas.Domain.Billing.{Floats, Calendar}

-- How a call of a port ends: with a value, or with an exception and its message.
pub data Reply {ℓ} (A : Type ℓ) : Type ℓ where
  returned : A → Reply A
  raised : String → Reply A

-- argon2's `verify` returns True, raises `VerifyMismatchError`, or raises another error.
pub data Verified : Type 0 where
  matches mismatch : Verified
  unreadable : String → Verified

-- The port `TenantSchemaManager` of the services.
pub record SchemaManager : Type 0 where
  pub create_schema : ℕ → String → Reply (Unit {0})
  pub run_migrations : ℕ → String → Reply (Unit {0})
  pub drop_schema : ℕ → String → Reply (Unit {0})

-- `NoOpSchemaManager`: it only logs.
abbrev pub no_op_schema_manager : SchemaManager
no_op_schema_manager = record {
  create_schema = λ n schema_name. returned tt;
  run_migrations = λ n schema_name. returned tt;
  drop_schema = λ n schema_name. returned tt;
}

-- The part of the port `RetentionRepository` that scans and deletes records, and
-- `TenantDataRepository`.
pub record RecordStore : Type 0 where
  pub find_expired_records : ℕ → Uuid → Date → Reply (List Uuid)
  pub soft_delete_records : ℕ → List Uuid → Reply ℕ
  pub find_soft_deleted_past_grace : ℕ → Uuid → Date → Reply (List Uuid)
  pub hard_delete_records : ℕ → List Uuid → Reply ℕ
  pub cascade_delete_all : ℕ → Uuid → Reply ℕ

-- `InMemoryRetentionRepository` and `InMemoryTenantDataRepository`, which hold no records.
abbrev pub in_memory_record_store : RecordStore
in_memory_record_store = record {
  find_expired_records = λ n tenant_id threshold_date. returned [];
  soft_delete_records = λ n record_ids. returned (length record_ids);
  find_soft_deleted_past_grace = λ n tenant_id grace_date. returned [];
  hard_delete_records = λ n record_ids. returned (length record_ids);
  cascade_delete_all = λ n tenant_id. returned 0;
}

pub record World : Type 0 where
  pub digest : Digest
  pub uuid4 : ℕ → Uuid
  pub hex : Uuid → String
  pub now : ℕ → Time
  pub today : ℕ → Date
  pub token_urlsafe : ℕ → String
  -- argon2's `PasswordHasher`
  pub hash : ℕ → String → String
  pub verify : String → String → Verified
  -- python-jose's `jwt`: `none` is a `JWTError`
  pub jwt_encode : Attributes → String → String
  pub jwt_decode : ℕ → String → String → String → Option Attributes
  -- `UUID(text)`: `none` is a `ValueError`
  pub parse_uuid : String → Option Uuid
  pub private_key : String
  pub public_key : String
  pub issuer : String
  pub schemas : SchemaManager
  pub records : RecordStore
  pub floats : Floats
  pub calendar : Calendar
  -- `date.isoformat`, `str(Decimal)`, and the quotient of a decimal by a whole number
  pub iso_date : Date → String
  pub str_decimal : Decimal → String
  pub divide : Decimal → ℕ → Decimal
