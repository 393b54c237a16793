-- ===== src/Adapters/Anomalies.antt =====
-- `InMemoryAnomalyRepository`: the anomalies in the order in which they were appended.
use eu_saas.Prelude.{ℕ, ◌-◌, List, [], ◌∷◌, ◌++◌, ◌&&◌, filter, ◌==◌, nat_eq, leb}
use eu_saas.Domain.Values.{Uuid, Time, days}
use eu_saas.Domain.Billing.{CostAnomaly}

unfoldable pub save : CostAnomaly → List CostAnomaly → List CostAnomaly
save anomaly anomalies = anomalies ++ anomaly ∷ []

unfoldable pub save_many : List CostAnomaly → List CostAnomaly → List CostAnomaly
save_many new anomalies = anomalies ++ new

unfoldable pub get_recent_by_tenant :
    List CostAnomaly → Uuid → (window : ℕ) (now : Time) → List CostAnomaly
get_recent_by_tenant anomalies tenant_id window now =
    filter (λ a. (a.tenant_id == tenant_id) && leb (now - days window) a.detected_at) anomalies
