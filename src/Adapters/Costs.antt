-- ===== src/Adapters/Costs.antt =====
-- `InMemoryCostRepository`: the records in the order in which they were appended.
use eu_saas.Prelude.{List, [], ◌∷◌, ◌++◌, Bool, ◌&&◌, filter, ◌==◌, nat_eq, leb}
use eu_saas.Domain.Values.{Uuid, Date}
use eu_saas.Domain.Billing.{CostRecord}

unfoldable pub save : CostRecord → List CostRecord → List CostRecord
save r records = records ++ r ∷ []

unfoldable pub save_many : List CostRecord → List CostRecord → List CostRecord
save_many new records = records ++ new

unfoldable pub get_by_tenant_and_date : List CostRecord → Uuid → Date → List CostRecord
get_by_tenant_and_date records tenant_id target_date =
    filter (λ r. (r.tenant_id == tenant_id) && (r.date == target_date)) records

abbrev pub is_within : Uuid → Date → Date → CostRecord → Bool
is_within tenant_id start_date end_date r =
    (r.tenant_id == tenant_id) && leb start_date r.date && leb r.date end_date

unfoldable pub get_by_tenant_and_range : List CostRecord → Uuid → Date → Date → List CostRecord
get_by_tenant_and_range records tenant_id start_date end_date =
    filter (is_within tenant_id start_date end_date) records
