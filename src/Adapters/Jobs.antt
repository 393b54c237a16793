-- ===== src/Adapters/Jobs.antt =====
-- `InMemoryExportJobRepository`
use eu_saas.Prelude.{String, Option, none, some, string_eq, Dict, lookup, insert}
use eu_saas.Domain.Values.{Uuid, Time}

-- `ExportJobStatus` of src/application/services/gdpr_service.py
pub data ExportJobStatus : Type 0 where
  queued in_progress completed failed : ExportJobStatus

pub record ExportJob : Type 0 where
  pub job_id : String
  pub tenant_id : Uuid
  pub status : ExportJobStatus
  pub download_url : Option String
  pub error : Option String
  pub created_at : Time
  pub completed_at : Option Time

abbrev pub JobRepo : Type 0
JobRepo = Dict String ExportJob

unfoldable pub save : String → Uuid → ExportJobStatus → Time → JobRepo → JobRepo
save job_id tenant_id status now jobs =
    insert job_id
      (record {
        job_id = job_id;
        tenant_id = tenant_id;
        status = status;
        download_url = none;
        error = none;
        created_at = now;
        completed_at = none;
      })
      jobs

unfoldable pub get_status : JobRepo → String → Option ExportJob
get_status jobs job_id = lookup job_id jobs

-- `if x: job[k] = x` of an optional text: `None` and `""` leave the old one.
abbrev or_keep : Option String → Option String → Option String
or_keep none old = old
or_keep (some String.[]) old = old
or_keep (some (String.◌∷◌ c s)) old = some (String.◌∷◌ c s)

abbrev updated :
    ExportJobStatus → Option String → Option String → String → JobRepo → Option ExportJob → JobRepo
updated status download_url error job_id jobs none = jobs
updated status download_url error job_id jobs (some job) =
    insert job_id
      (record job {
        status = status;
        download_url = or_keep download_url job.download_url;
        error = or_keep error job.error;
      })
      jobs

unfoldable pub update_status :
    String → ExportJobStatus → Option String → Option String → JobRepo → JobRepo
update_status job_id status download_url error jobs =
    updated status download_url error job_id jobs (lookup job_id jobs)
