-- ===== src/Container/State.antt =====
-- The adapters that one `ServiceContainer` owns. A raise leaves what was written before it.
use eu_saas.Prelude.{ℕ, String, List, []}
use eu_saas.Domain.Values.{Uuid}
use eu_saas.Domain.Audit.{AuditEntry}
use eu_saas.Domain.Billing.{UsageRecord, CostRecord, CostAnomaly}
use eu_saas.Adapters.Tenants.{TenantRepo}
use eu_saas.Adapters.Users.{UserRepo}
use eu_saas.Adapters.Tokens.{TokenStore}
use eu_saas.Adapters.Jobs.{JobRepo}
use eu_saas.Adapters.Policies.{PolicyRepo}
use eu_saas.Adapters.Cache.{CacheStore}
use eu_saas.Adapters.Invoices.{InvoiceRepo}

-- A Celery task that was enqueued by `.delay`.
pub data Task : Type 0 where
  deprovision_tenant_async : (tenant_id : Uuid) → Task
  export_tenant_data_task : (tenant_id : Uuid) (job_id : String) → Task

pub record Container : Type 0 where
  pub tenants : TenantRepo
  pub users : UserRepo
  pub audit : List AuditEntry
  pub tokens : TokenStore
  pub jobs : JobRepo
  pub policies : PolicyRepo
  pub cache : CacheStore
  pub usage : List UsageRecord
  pub costs : List CostRecord
  pub invoices : InvoiceRepo
  pub anomalies : List CostAnomaly
  pub queue : List Task
  -- how often the program has called the outside world
  pub calls : ℕ

abbrev pub fresh : Container
fresh = record {
  tenants = record { store = []; by_slug = [] };
  users = record { store = []; by_email = [] };
  audit = [];
  tokens = [];
  jobs = [];
  policies = [];
  cache = [];
  usage = [];
  costs = [];
  invoices = [];
  anomalies = [];
  queue = [];
  calls = 0;
}
