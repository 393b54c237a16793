-- ===== src/Erasure/Pipeline.antt =====
-- What a run of the erasure handler reports.
use eu_saas.Prelude.{
  append-nil, sym, arith, ◌≡◌, refl, ◌∙◌, ap, Bool, true, ◌&&◌, String, List, [], ◌∷◌, ◌++◌, map,
  append_assoc,
}
use eu_saas.Erasure.{
  Reply, returned, raised, recorded, unchanged, archived, ErasureBackend, ErasureStep, StepResult,
  ErasureResult, pipeline, dispatch, run_step, run_steps, execute, noted,
}

-- Every one of the step results is a success.
abbrev pub all_succeeded : List StepResult → Bool
all_succeeded [] = true
all_succeeded (r ∷ rs) = r.success && all_succeeded rs

abbrev pub attempted : List StepResult → List ErasureStep
attempted rs = map (λ r. r.step) rs

attempted-append :
    (rs : List StepResult) (r : StepResult) → attempted (rs ++ r ∷ []) ≡ attempted rs ++ r.step ∷ []
attempted-append [] r = refl
attempted-append (q ∷ rs) r = ap (λ l. q.step ∷ l) (attempted-append rs r)

all_succeeded-append :
    (rs : List StepResult) (r : StepResult)
    → all_succeeded (rs ++ r ∷ []) ≡ all_succeeded rs && r.success
all_succeeded-append [] r = ground arith
all_succeeded-append (q ∷ rs) r = ground (arith, all_succeeded-append rs r)

-- A step is reported as itself, and touches nothing else of the report but the archive's path.
record IsRun {S : Type 0} (step : ErasureStep) (result : ErasureResult)
    (out : StepResult × (ErasureResult × S)) : Type 0 where
  itself : out.0.step ≡ step
  steps : out.1.0.steps ≡ result.steps
  success : out.1.0.success ≡ result.success

-- The flag of a report says whether all its steps succeeded.
abbrev IsHonest : ErasureResult → Type 0
IsHonest result = result.success ≡ all_succeeded result.steps

module _ {S : Type 0} (backend : ErasureBackend S) where
  unchanged-IsRun :
      (step : ErasureStep) (result : ErasureResult) (r : Reply (Unit {0}) × S)
      → IsRun step result (recorded backend step result (unchanged result r))
  unchanged-IsRun step result (returned done, s) = search refl
  unchanged-IsRun step result (raised message, s) = search refl

  archived-IsRun :
      (step : ErasureStep) (result : ErasureResult) (r : Reply String × S)
      → IsRun step result (recorded backend step result (archived result r))
  archived-IsRun step result (returned path, s) = search refl
  archived-IsRun step result (raised message, s) = search refl

  run_step-IsRun :
      (step : ErasureStep) (tenant_id : String) (result : ErasureResult) (s : S)
      → IsRun step result (run_step backend step tenant_id result s)
  unfolding run_step dispatch
  run_step-IsRun ErasureStep.export_final_archive tenant_id result s = archived-IsRun _ result _
  run_step-IsRun ErasureStep.freeze_tenant tenant_id result s = unchanged-IsRun _ result _
  run_step-IsRun ErasureStep.cascade_delete_data tenant_id result s = unchanged-IsRun _ result _
  run_step-IsRun ErasureStep.drop_schema tenant_id result s = unchanged-IsRun _ result _
  run_step-IsRun ErasureStep.rotate_encryption_key tenant_id result s = unchanged-IsRun _ result _
  run_step-IsRun ErasureStep.purge_caches tenant_id result s = unchanged-IsRun _ result _
  run_step-IsRun ErasureStep.write_audit_record tenant_id result s = unchanged-IsRun _ result _

  run_steps-attempted :
      (steps : List ErasureStep) (tenant_id : String) (result : ErasureResult) (s : S)
      → attempted (run_steps backend steps tenant_id result s).0.steps
        ≡ attempted result.steps ++ steps
  unfolding run_steps
  run_steps-attempted [] tenant_id result s = sym (append-nil _)
  run_steps-attempted (step ∷ steps) tenant_id result s =
      let out = run_step backend step tenant_id result s in
      let h = run_step-IsRun step tenant_id result s in
      run_steps-attempted steps tenant_id (noted backend out.0 out.1.0) out.1.1
      ∙ rw (h.steps, attempted-append, h.itself, append_assoc) refl

  noted-IsHonest :
      (r : StepResult) (result : ErasureResult)
      → IsHonest result
      → IsHonest (noted backend r result)
  noted-IsHonest r result h = ground (arith, h, all_succeeded-append result.steps r)

  run_steps-IsHonest :
      (steps : List ErasureStep) (tenant_id : String) (result : ErasureResult) (s : S)
      → IsHonest result
      → IsHonest (run_steps backend steps tenant_id result s).0
  unfolding run_steps
  run_steps-IsHonest [] tenant_id result s h = h
  run_steps-IsHonest (step ∷ steps) tenant_id result s h =
      let out = run_step backend step tenant_id result s in
      let r = run_step-IsRun step tenant_id result s in
      run_steps-IsHonest steps tenant_id (noted backend out.0 out.1.0) out.1.1
        (noted-IsHonest out.0 out.1.0 (r.success ∙ h ∙ ap all_succeeded (sym r.steps)))

  -- Every step of the pipeline is attempted, once and in order, whichever of them fail.
  pub execute-attempted :
      (tenant_id : String) (s : S) → attempted (execute backend tenant_id s).0.steps ≡ pipeline
  unfolding execute
  execute-attempted tenant_id s = run_steps-attempted pipeline tenant_id _ _

  -- The run is reported as a success exactly if every step of it succeeded.
  pub execute-IsHonest :
      (tenant_id : String) (s : S)
      → (execute backend tenant_id s).0.success
        ≡ all_succeeded (execute backend tenant_id s).0.steps
  unfolding execute
  execute-IsHonest tenant_id s = run_steps-IsHonest pipeline tenant_id _ _ refl
