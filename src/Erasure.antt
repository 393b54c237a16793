-- ===== src/Erasure.antt =====
-- src/infrastructure/gdpr/erasure_handler.py. The `ErasureBackend` is a parameter that acts on a
-- state of its own; `datetime.now` is read from the same state.
pub mod Pipeline
use eu_saas.Prelude.{ℕ, String, Bool, true, false, Option, none, some, List, [], ◌∷◌, ◌++◌}
use eu_saas.Domain.Values.{Time}

pub data ErasureStep : Type 0 where
  freeze_tenant export_final_archive cascade_delete_data drop_schema rotate_encryption_key
        purge_caches write_audit_record :
      ErasureStep

pub record StepResult : Type 0 where
  pub step : ErasureStep
  pub success : Bool
  pub detail : String
  pub timestamp : Time

pub record ErasureResult : Type 0 where
  pub tenant_id : String
  pub success : Bool
  pub steps : List StepResult
  pub started_at : Time
  pub completed_at : Option Time
  pub archive_path : Option String

-- How a method of the backend ends: with its value, or with an exception of that text.
pub data Reply (A : Type 0) : Type 0 where
  returned : A → Reply A
  raised : (message : String) → Reply A

pub record ErasureBackend (S : Type 0) : Type 0 where
  pub freeze_tenant : String → S → Reply (Unit {0}) × S
  pub export_final_archive : String → S → Reply String × S
  pub cascade_delete_data : String → S → Reply (Unit {0}) × S
  pub drop_schema : String → S → Reply (Unit {0}) × S
  pub rotate_encryption_key : String → S → Reply (Unit {0}) × S
  pub purge_caches : String → S → Reply (Unit {0}) × S
  pub write_audit_record : String → ErasureResult → S → Reply (Unit {0}) × S
  pub now : S → Time × S

-- `_PIPELINE`
unfoldable pub pipeline : List ErasureStep
pipeline =
    freeze_tenant ∷ export_final_archive ∷ cascade_delete_data ∷ drop_schema ∷ rotate_encryption_key
    ∷ purge_caches ∷ write_audit_record ∷ []

-- The result object is as before the call of a method whose value is not used.
abbrev unchanged : {S : Type 0} → ErasureResult → Reply (Unit {0}) × S → Reply ErasureResult × S
unchanged result (returned done, s) = (returned result, s)
unchanged result (raised message, s) = (raised message, s)

-- `result.archive_path = archive_path`
abbrev archived : {S : Type 0} → ErasureResult → Reply String × S → Reply ErasureResult × S
archived result (returned path, s) = (returned (record result { archive_path = some path }), s)
archived result (raised message, s) = (raised message, s)

module _ {S : Type 0} (backend : ErasureBackend S) where
  unfoldable pub dispatch : ErasureStep → String → ErasureResult → S → Reply ErasureResult × S
  dispatch freeze_tenant tenant_id result s = unchanged result (backend.freeze_tenant tenant_id s)
  dispatch export_final_archive tenant_id result s =
      archived result (backend.export_final_archive tenant_id s)
  dispatch cascade_delete_data tenant_id result s =
      unchanged result (backend.cascade_delete_data tenant_id s)
  dispatch drop_schema tenant_id result s = unchanged result (backend.drop_schema tenant_id s)
  dispatch rotate_encryption_key tenant_id result s =
      unchanged result (backend.rotate_encryption_key tenant_id s)
  dispatch purge_caches tenant_id result s = unchanged result (backend.purge_caches tenant_id s)
  dispatch write_audit_record tenant_id result s =
      unchanged result (backend.write_audit_record tenant_id result s)

  -- The step result that the reply calls for, and the result object after the step.
  abbrev recorded :
      ErasureStep → ErasureResult → Reply ErasureResult × S → StepResult × (ErasureResult × S)
  recorded step result (returned after, s) =
      let (now, t) = backend.now s in
      (record { step = step; success = true; detail = ""; timestamp = now }, (after, t))
  recorded step result (raised message, s) =
      let (now, t) = backend.now s in
      (record { step = step; success = false; detail = message; timestamp = now }, (result, t))

  unfoldable pub run_step :
      ErasureStep → String → ErasureResult → S → StepResult × (ErasureResult × S)
  run_step step tenant_id result s = recorded step result (dispatch step tenant_id result s)

  -- `result.steps.append(step_result)`, and `result.success = False` after a failure.
  abbrev noted : StepResult → ErasureResult → ErasureResult
  noted step_result result = record result {
    steps = result.steps ++ step_result ∷ [];
    success = elim step_result.success [ true ↦ result.success | false ↦ false ];
  }

  unfoldable pub run_steps : List ErasureStep → String → ErasureResult → S → ErasureResult × S
  run_steps [] tenant_id result s = (result, s)
  run_steps (step ∷ steps) tenant_id result s =
      let (step_result, (after, t)) = run_step step tenant_id result s in
      run_steps steps tenant_id (noted step_result after) t

  -- `ErasureResult(tenant_id=tenant_id, success=True)`
  abbrev started : String → Time → ErasureResult
  started tenant_id now = record {
    tenant_id = tenant_id;
    success = true;
    steps = [];
    started_at = now;
    completed_at = none;
    archive_path = none;
  }

  unfoldable pub execute : String → S → ErasureResult × S
  execute tenant_id s =
      let (now, begun) = backend.now s in
      let (result, t) = run_steps pipeline tenant_id (started tenant_id now) begun in
      let (completed_at, u) = backend.now t in
      (record result { completed_at = some completed_at }, u)

  -- The methods of the handler that run one step, for a retry.
  unfoldable pub run_alone : ErasureStep → String → S → StepResult × S
  run_alone step tenant_id s =
      let (now, begun) = backend.now s in
      let (step_result, (after, t)) = run_step step tenant_id (started tenant_id now) begun in
      (step_result, t)
