-- ===== src/Repository/Histories.antt =====
-- TenantRepository under every sequence of writes, beside a function from ids to tenants.
use mathlib.Core.Option
use mathlib.Core.Path.{fun_ext}
use eu_saas.Prelude.{
  ◌≡◌, refl, ap, ◌∙◌, Bool, true, false, Bool-cases, inl, inr, Option, none, some, List, [], ◌∷◌,
  filter, any, ◌==◌, nat_eq, if◌then◌else◌, arith,
}
use eu_saas.Domain.Values.{Uuid, Time}
use eu_saas.Repository.Sql.{
  Answer, conflict, is_valid, changed, insert_row, update_rows, delete_rows,
}
use eu_saas.Repository.Tenants as Repo
use eu_saas.Repository.Tenants.{
  TenantModel, NewTenant, TenantField, tenant_row, new_row, after_update, is_allowed, set_field,
  set_fields, update_allowed,
}
use eu_saas.Repository.Views.{
  answer_of, view, scalar_one_or_none-view, view-changed, view-delete, is_valid-filter,
}

pub data Write : Type 0 where
  create : (id : Uuid) (now : Time) → NewTenant → Write
  update : (id : Uuid) → List TenantField → (now : Time) → Write
  delete : (id : Uuid) → Write

-- Whether the database accepts a write, and the table that is left.
abbrev or_refused : Option (List TenantModel) → List TenantModel → Bool × List TenantModel
or_refused none rows = (false, rows)
or_refused (some rows') rows = (true, rows')

abbrev accepted : Option (Answer TenantModel) → Bool
accepted none = false
accepted (some answer) = true

unfoldable pub write : Write → List TenantModel → Bool × List TenantModel
write (create id now t) rows = or_refused (Repo.create id now t rows) rows
write (update id fields now) rows = let r = Repo.update id fields now rows in (accepted r.0, r.1)
write (delete id) rows = (true, (Repo.delete id rows).1)

-- `if not update_data: return …`
abbrev pub updated :
    Uuid → List TenantField → Time → (Uuid → Option TenantModel) → Uuid → Option TenantModel
updated id [] now f k = f k
updated id (x ∷ fields) now f k =
    if id == k then Option.map (after_update (x ∷ fields) now) (f k) else f k

-- What a write means for a function from ids to tenants.
abbrev pub effect : Write → (Uuid → Option TenantModel) → Uuid → Option TenantModel
effect (create id now t) f k = if id == k then some (new_row id now t) else f k
effect (update id fields now) f k = updated id (filter is_allowed fields) now f k
effect (delete id) f k = if id == k then none else f k

unfoldable pub run : List Write → List TenantModel → List Bool × List TenantModel
run [] rows = ([], rows)
run (x ∷ writes) rows = let r = write x rows in let rest = run writes r.1 in (r.0 ∷ rest.0, rest.1)

-- The same writes on a function, as far as they were accepted.
abbrev pub replay : List Write → List Bool → (Uuid → Option TenantModel) → Uuid → Option TenantModel
replay [] outcomes f = f
replay (x ∷ writes) [] f = f
replay (x ∷ writes) (ok ∷ outcomes) f = replay writes outcomes (if ok then effect x f else f)

set_field-id : (f : TenantField) (t : TenantModel) → (set_field f t).id ≡ t.id
set_field-id (TenantField.name x) t = refl
set_field-id (TenantField.slug x) t = refl
set_field-id (TenantField.data_residency_region x) t = refl
set_field-id (TenantField.status x) t = refl
set_field-id (TenantField.tier x) t = refl
set_field-id (TenantField.domain x) t = refl
set_field-id (TenantField.max_users x) t = refl
set_field-id (TenantField.is_gdpr_compliant x) t = refl
set_field-id (TenantField.metadata_json x) t = refl
set_field-id (TenantField.unlisted x) t = refl

set_fields-id : (fields : List TenantField) (t : TenantModel) → (set_fields fields t).id ≡ t.id
set_fields-id [] t = refl
set_fields-id (f ∷ fields) t = set_fields-id fields (set_field f t) ∙ set_field-id f t

-- A write keeps a table valid, and is its effect if it is accepted and nothing otherwise.
record IsWritten (x : Write) (rows : List TenantModel) (r : Bool × List TenantModel) : Type 0 where
  pub valid : is_valid r.1 ≡ true
  pub shown : view r.1 ≡ (if r.0 then effect x (view rows) else view rows)

updated-IsWritten :
    (id : Uuid) (fields : List TenantField) (now : Time) (rows : List TenantModel)
    → is_valid rows ≡ true
    → (allowed : List TenantField) → filter is_allowed fields ≡ allowed
    → let r = update_allowed allowed id now rows in
      IsWritten (update id fields now) rows (accepted r.0, r.1)
unfolding update_rows
updated-IsWritten id fields now rows valid [] e = record {
  valid = valid;
  shown = fun_ext λ k. rw e refl;
}
updated-IsWritten id fields now rows valid (f ∷ allowed) e =
    let set = after_update (f ∷ allowed) now in
    elim (Bool-cases (is_valid (changed id set rows))) [
      | inl kept ↦ rw kept (record {
        valid = kept;
        shown = fun_ext λ k. rw e (view-changed id k set rows (λ t. set_fields-id (f ∷ allowed) t));
      })
      | inr clash ↦ rw clash (record { valid = valid; shown = refl })
    ]

write-IsWritten :
    (x : Write) (rows : List TenantModel) → is_valid rows ≡ true → IsWritten x rows (write x rows)
unfolding write Repo.create Repo.update Repo.delete insert_row delete_rows update_rows
write-IsWritten (create id now t) rows valid =
    elim (Bool-cases (any (conflict (new_row id now t)) rows)) [
      | inl clash ↦ rw clash (record { valid = valid; shown = refl })
      | inr free ↦
          rw free (record { valid = ground (arith, free, valid); shown = fun_ext λ k. refl })
    ]
write-IsWritten (update id fields now) rows valid =
    updated-IsWritten id fields now rows valid (filter is_allowed fields) refl
write-IsWritten (delete id) rows valid = record {
  valid = is_valid-filter _ rows valid;
  shown = fun_ext λ k. view-delete id k rows;
}

-- A history of writes on a valid table ends in a valid table, and each id is then answered by what
-- the accepted writes make of the function that the first table was.
pub run_refines :
    (writes : List Write) (rows : List TenantModel)
    → is_valid rows ≡ true
    → (is_valid (run writes rows).1 ≡ true)
      × ((id : Uuid)
          → Repo.get_by_id (run writes rows).1 id
            ≡ answer_of (replay writes (run writes rows).0 (view rows) id))
unfolding run Repo.get_by_id
run_refines [] rows valid = (valid, λ id. scalar_one_or_none-view id rows valid)
run_refines (x ∷ writes) rows valid =
    let done = write-IsWritten x rows valid in
    let (valid', answers) = run_refines writes (write x rows).1 done.valid in
    (
      valid',
      λ id.
          answers id
          ∙ ap (λ f. answer_of (replay writes (run writes (write x rows).1).0 f id)) done.shown,
    )
