-- ===== src/Presentation/Exports.antt =====
-- What becomes of an export that a client asks for. The service keeps a job under the hexadecimal
-- digits of its id, and the route looks for the id with its dashes.
use eu_saas.Text.{codes}
use eu_saas.Prelude.{
  nat_eq, ◌+◌, ◌≡◌, refl, String, false, Bool-cases, inl, inr, Option-cases, none, ◌==◌, string_eq,
  nat_beq, lookup, lookup-insert, ◌∙◌,
}
use eu_saas.Domain.Values.{Uuid}
use eu_saas.Adapters.Jobs as JobRepo
use eu_saas.Adapters.Jobs.{JobRepo}
use eu_saas.Adapters.Tenants as Repo
use eu_saas.Container.{Container, World, Action, Result, ok, err, running, and_then}
use eu_saas.Services.Auditing.{create_audit_entry}
use eu_saas.Services.Tenants.{get_tenant}
use eu_saas.Services.Gdpr as GdprService
use eu_saas.Presentation.{Outcome}
use eu_saas.Presentation.Gdpr.{count, request_data_export, get_export_status, not_found, job_uuid}

module _ (w : World) where
  -- No job stands under an id with dashes.
  abbrev pub IsUndashed : JobRepo → Type 0
  IsUndashed jobs = (id : Uuid) → lookup (w.digest.str_uuid id) jobs ≡ none

  -- The digits of an id are never an id with dashes.
  abbrev pub IsDashless : Type 0
  IsDashless = (a b : Uuid) → (w.hex a == w.digest.str_uuid b) ≡ false

  export_tenant_data-IsUndashed :
      (tenant_id : Uuid) (s : Container)
      → IsDashless
      → IsUndashed s.jobs
      → IsUndashed (GdprService.export_tenant_data w tenant_id s).1.jobs
  unfolding GdprService.export_tenant_data get_tenant create_audit_entry running JobRepo.save
      Repo.get_by_id
  export_tenant_data-IsUndashed tenant_id s dashless undashed id =
      elim (Option-cases (lookup tenant_id s.tenants.store)) [
        | inl e ↦ rw e (undashed id)
        | inr (t, e) ↦
            rw
              (
                e,
                lookup-insert (w.hex (w.uuid4 s.calls)) (w.digest.str_uuid id),
                dashless (w.uuid4 s.calls) id,
              )
              (undashed id)
      ]

  and_then-jobs :
      {A B : Type 0} (f : A → Action B) (r : Result A × Container)
      → ((a : A) (t : Container) → (f a t).1.jobs ≡ t.jobs)
      → (and_then r f).1.jobs ≡ r.1.jobs
  and_then-jobs f (ok a, t) keeps = keeps a t
  and_then-jobs f (err e, t) keeps = refl

  job_uuid-jobs : (job_id : String) (s : Container) → (job_uuid w job_id s).1.jobs ≡ s.jobs
  unfolding running
  job_uuid-jobs job_id s = elim (Bool-cases (nat_beq (count (codes job_id)) 32)) [
    | inl digits ↦ elim (Option-cases (w.parse_uuid job_id)) [
      | inl e ↦ rw (digits, e) refl
      | inr (job, e) ↦ rw (digits, e) refl
    ]
    | inr other ↦ rw other refl
  ]

  request_data_export-jobs :
      (tenant_id : Uuid) (s : Container)
      → (request_data_export w tenant_id s).1.jobs
        ≡ (GdprService.export_tenant_data w tenant_id s).1.jobs
  unfolding request_data_export running
  request_data_export-jobs tenant_id s =
      and_then-jobs _ (GdprService.export_tenant_data w tenant_id s) λ job_id t.
        and_then-jobs _ (job_uuid w job_id (record t { calls = t.calls + 1 })) (λ job u. refl)
        ∙ job_uuid-jobs job_id (record t { calls = t.calls + 1 })

  refused-unknown :
      (tenant_id job_id : Uuid) (s : Container)
      → lookup (w.digest.str_uuid job_id) s.jobs ≡ none
      → get_export_status w tenant_id job_id s
        ≡ (ok (Outcome.refused 404 (not_found w tenant_id job_id)), s)
  unfolding get_export_status GdprService.get_export_status JobRepo.get_status running
  refused-unknown tenant_id job_id s unknown = rw unknown refl

  -- If jobs are stored without dashes only, they still are after a request for an export, accepted or
  -- not, and whatever id the client then asks for, the route answers that there is no such job.
  pub request_data_export-lost :
      (tenant_id : Uuid) (s : Container)
      → IsDashless
      → IsUndashed s.jobs
      → let t = (request_data_export w tenant_id s).1 in
        IsUndashed t.jobs
        × ((job_id : Uuid)
            → get_export_status w tenant_id job_id t
              ≡ (ok (Outcome.refused 404 (not_found w tenant_id job_id)), t))
  request_data_export-lost tenant_id s dashless undashed =
      let kept : IsUndashed (request_data_export w tenant_id s).1.jobs =
        rw (request_data_export-jobs tenant_id s)
          (export_tenant_data-IsUndashed tenant_id s dashless undashed) in
      (kept, λ job_id. refused-unknown tenant_id job_id _ (kept job_id))
