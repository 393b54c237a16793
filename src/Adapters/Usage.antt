-- ===== src/Adapters/Usage.antt =====
-- `InMemoryUsageRepository`: the records in the order in which they were appended.
use eu_saas.Prelude.{List, [], ◌∷◌, ◌++◌, Bool, ◌&&◌, filter, ◌==◌, nat_eq, leb, ◌/◌}
use eu_saas.Domain.Values.{Uuid, Time, Date, microseconds_per_day}
use eu_saas.Domain.Billing.{UsageRecord}

-- `t.date()`
abbrev pub date_of : Time → Date
date_of t = t / microseconds_per_day

unfoldable pub save : UsageRecord → List UsageRecord → List UsageRecord
save r records = records ++ r ∷ []

abbrev pub is_used_on : Uuid → Date → UsageRecord → Bool
is_used_on tenant_id target_date r =
    (r.tenant_id == tenant_id) && (date_of r.recorded_at == target_date)

unfoldable pub get_by_tenant_and_date : List UsageRecord → Uuid → Date → List UsageRecord
get_by_tenant_and_date records tenant_id target_date =
    filter (is_used_on tenant_id target_date) records

unfoldable pub get_by_tenant_and_range : List UsageRecord → Uuid → Date → Date → List UsageRecord
get_by_tenant_and_range records tenant_id start_date end_date =
    filter
      (λ r.
        (r.tenant_id == tenant_id)
        && leb start_date (date_of r.recorded_at)
        && leb (date_of r.recorded_at) end_date)
      records
