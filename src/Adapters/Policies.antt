-- ===== src/Adapters/Policies.antt =====
-- The policies of `InMemoryRetentionRepository`, with `RetentionPolicy` of
-- src/application/services/gdpr_service.py.
use eu_saas.Prelude.{ℕ, Option, Bool, nat_eq, Dict, lookup, insert}
use eu_saas.Domain.Values.{Uuid, Time}

pub record RetentionPolicy : Type 0 where
  pub tenant_id : Uuid
  pub retention_days : ℕ
  pub grace_period_days : ℕ
  pub auto_cleanup_enabled : Bool
  pub updated_at : Time

abbrev pub PolicyRepo : Type 0
PolicyRepo = Dict Uuid RetentionPolicy

unfoldable pub get_policy : PolicyRepo → Uuid → Option RetentionPolicy
get_policy policies tenant_id = lookup tenant_id policies

unfoldable pub save_policy : RetentionPolicy → PolicyRepo → PolicyRepo
save_policy policy policies = insert policy.tenant_id policy policies
