-- ===== src/Presentation/Gdpr.antt =====
-- src/presentation/api/v1/gdpr.py
use eu_saas.Prelude.{ℕ, suc, String, nat_beq, none, some, List, [], ◌∷◌, if◌then◌else◌}
use eu_saas.Text.{format, codes}
use eu_saas.Domain.Values.{Uuid}
use eu_saas.Domain.Errors.{Error, value_error}
use eu_saas.Container.{World, Action, ◌>>=◌, ◌>>◌, pure, raise, or_raise, call, try_except}
use eu_saas.Services.Gdpr as GdprService
use eu_saas.Services.Tenants.{nobody}
use eu_saas.Presentation.{Outcome}
use eu_saas.Presentation.Billing.{listed_none}
use eu_saas.Presentation.Schemas.{
  PaginationMeta, export_pending, GdprExportStatus, GdprErasureRequest, GdprErasureResponse,
  RetentionPolicyRequest, RetentionPolicyResponse,
}

abbrev pub count : List ℕ → ℕ
count [] = 0
count (c ∷ cs) = suc (count cs)

module _ (w : World) where
  -- `uuid.UUID(job_id) if len(job_id) == 32 else uuid.uuid4()`
  abbrev pub job_uuid : String → Action Uuid
  job_uuid job_id =
      if nat_beq (count (codes job_id)) 32
      then or_raise (w.parse_uuid job_id) (value_error "badly formed hexadecimal UUID string")
      else call w.uuid4

  unfoldable pub request_data_export : Uuid → Action (Outcome GdprExportStatus)
  request_data_export tenant_id = do
    job_id ← GdprService.export_tenant_data w tenant_id
    now ← call w.now
    job ← job_uuid job_id
    pure (
        Outcome.answered 202 (record {
          job_id = job;
          tenant_id = tenant_id;
          status = export_pending;
          requested_at = now;
          completed_at = none;
          expires_at = none;
          download_url = none;
          error_message = none;
        }))

  abbrev pub not_found : Uuid → Uuid → String
  not_found tenant_id job_id = format (
      "Export job '"
      ∷ w.digest.str_uuid job_id
      ∷ "' not found for tenant '"
      ∷ w.digest.str_uuid tenant_id
      ∷ "'."
      ∷ [])

  -- `except ValueError`
  abbrev unknown_job : Uuid → Uuid → Error → Action (Outcome GdprExportStatus)
  unknown_job tenant_id job_id (value_error message) =
      pure (Outcome.refused 404 (not_found tenant_id job_id))
  unknown_job tenant_id job_id e = raise e

  abbrev still_pending : Uuid → Uuid → Action (Outcome GdprExportStatus)
  still_pending tenant_id job_id = do
    now ← call w.now
    pure (
        Outcome.answered 200 (record {
          job_id = job_id;
          tenant_id = tenant_id;
          status = export_pending;
          requested_at = now;
          completed_at = none;
          expires_at = none;
          download_url = none;
          error_message = none;
        }))

  unfoldable pub get_export_status : Uuid → Uuid → Action (Outcome GdprExportStatus)
  get_export_status tenant_id job_id =
      try_except
        (GdprService.get_export_status (w.digest.str_uuid job_id) >> still_pending tenant_id job_id)
        (unknown_job tenant_id job_id)

  -- It only draws the id of a job.
  unfoldable pub request_erasure : Uuid → GdprErasureRequest → Action (Outcome GdprErasureResponse)
  request_erasure tenant_id body = do
    job_id ← call w.uuid4
    pure (
        Outcome.answered 202 (record {
          job_id = job_id;
          tenant_id = tenant_id;
          data_subject_id = body.data_subject_id;
          status = "ACCEPTED";
          estimated_completion = none;
        }))

  unfoldable pub get_retention_policy : Uuid → Action (Outcome RetentionPolicyResponse)
  get_retention_policy tenant_id = do
    policy ← GdprService.get_retention_policy w tenant_id
    pure (
        Outcome.answered 200 (record {
          tenant_id = tenant_id;
          default_retention_days = policy.retention_days;
          audit_log_retention_days = 730;
          backup_retention_days = 90;
          pii_retention_days = some 180;
          updated_at = policy.updated_at;
          updated_by = nobody;
        }))

  -- It answers with the body, and stores nothing.
  unfoldable pub update_retention_policy :
      Uuid → RetentionPolicyRequest → Action (Outcome RetentionPolicyResponse)
  update_retention_policy tenant_id body = do
    now ← call w.now
    pure (
        Outcome.answered 200 (record {
          tenant_id = tenant_id;
          default_retention_days = body.default_retention_days;
          audit_log_retention_days = body.audit_log_retention_days;
          backup_retention_days = body.backup_retention_days;
          pii_retention_days = body.pii_retention_days;
          updated_at = now;
          updated_by = nobody;
        }))

-- The trail is answered as empty.
unfoldable pub get_audit_log : ℕ → ℕ → Action (Outcome (List (Unit {0}) × PaginationMeta))
get_audit_log page page_size = listed_none page page_size
