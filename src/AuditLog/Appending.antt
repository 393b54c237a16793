-- ===== src/AuditLog/Appending.antt =====
-- What `append_entry` does to the chains of a table.
use eu_saas.Prelude.{
  subst, ◌≡◌, ◌≢◌, ◌⊎◌, inl, inr, refl, sym, ◌∙◌, String, ==_refl, ==_ne, nat_eq, false, Bool-cases,
  Option, List, [], ◌∷◌, leb, if◌then◌else◌, All, string_eq,
}
use eu_saas.Domain.Values.{Uuid, Time, Attributes}
use eu_saas.Domain.Audit.{AuditAction}
use eu_saas.AuditLog.Integrity.{IsIntact, verify_chain_integrity-valid}
use eu_saas.AuditLog.{
  some, none, Hashing, Payload, Latest, AuditLogModel, payload, compute_hash, place, by_timestamp,
  entries_of, get_latest_hash, verify_chain_integrity, append_entry,
}

module _ (h : Hashing) where
  -- What is hashed of an entry, as it is written at a time and as it is read.
  abbrev pub written : Time → AuditLogModel → String
  written now e = h.dumps (record (payload h e) { timestamp = h.naive_isoformat now })

  abbrev pub read : AuditLogModel → String
  read e = h.dumps (payload h e)

  -- The hash of an entry is that of its fields as they are read.
  abbrev pub IsHashed : AuditLogModel → Type 0
  IsHashed e = e.chain_hash ≡ compute_hash h (payload h e)

  IsIntact-IsHashed :
      (previous : Option String) (es : List AuditLogModel)
      → IsIntact h previous es
      → All IsHashed es
  IsIntact-IsHashed previous [] i = tt
  IsIntact-IsHashed previous (e ∷ es) (pointer, hash, i) =
      (hash, IsIntact-IsHashed (some e.chain_hash) es i)

placed :
    (P : AuditLogModel → Type 0) (e : AuditLogModel) (fs : List AuditLogModel)
    → All P (place e fs)
    → P e
unfolding place
placed P e [] (p, all) = p
placed P e (f ∷ fs) all = elim (Bool-cases (leb f.timestamp e.timestamp)) [
  | inl earlier ↦
      placed P e fs (subst (λ b. All P (if b then f ∷ place e fs else e ∷ f ∷ fs)) earlier all).1
  | inr later ↦ (subst (λ b. All P (if b then f ∷ place e fs else e ∷ f ∷ fs)) later all).0
]

-- The row that `append_entry` adds.
record IsAppended (h : Hashing) (latest : Latest) (tenant_id : Uuid) (now : Time)
    (table after : List AuditLogModel) : Type 0 where
  row : AuditLogModel
  grown : after ≡ row ∷ table
  tenant : row.tenant_id ≡ tenant_id
  pointer : row.previous_hash ≡ get_latest_hash latest tenant_id table
  hash :
      row.chain_hash ≡ compute_hash h (record (payload h row) { timestamp = h.naive_isoformat now })
  timestamp : row.timestamp ≡ h.stored now

module _ (h : Hashing) (latest : Latest) (id tenant_id : Uuid) (action : AuditAction)
    (resource_type : String) (actor_id : Option Uuid) (resource_id : Option String)
    (details : Option Attributes) (ip_address : Option String) (now : Time)
    (table : List AuditLogModel) where
  abbrev after : List AuditLogModel
  after =
      append_entry h latest id tenant_id action resource_type actor_id resource_id details
        ip_address now table

  append_entry-IsAppended : IsAppended h latest tenant_id now table after
  unfolding append_entry payload
  append_entry-IsAppended = record {
    row = _;
    grown = refl;
    tenant = refl;
    pointer = refl;
    hash = refl;
    timestamp = refl;
  }

  entries_of-after :
      entries_of tenant_id after ≡ place append_entry-IsAppended.row (entries_of tenant_id table)
  unfolding entries_of by_timestamp
  entries_of-after =
      let a = append_entry-IsAppended in rw (a.grown, a.tenant, ==_refl tenant_id) refl

  -- If `isoformat` tells times with an offset from times without, and the serialised payload
  -- determines the time in it: an append adds one row of the tenant to the table, and the tenant's
  -- log is then reported as broken, whatever it was before, or the texts that are hashed of the new
  -- row, when it is written and when it is read, are a collision of SHA-256.
  pub append_entry-invalid :
      ((s t : Time) → h.naive_isoformat s ≢ h.aware_isoformat t)
      → ((a b : Payload) → h.dumps a ≡ h.dumps b → a.timestamp ≡ b.timestamp)
      → (row : AuditLogModel) × (after ≡ row ∷ table)
        × (row.tenant_id ≡ tenant_id)
        × (((verify_chain_integrity h tenant_id after).valid ≡ false)
            ⊎ ((written h now row ≢ read h row)
                × (h.sha256 (written h now row) ≡ h.sha256 (read h row))))
  unfolding compute_hash payload
  append_entry-invalid offsets reads =
      let a = append_entry-IsAppended in
      (
        a.row,
        a.grown,
        a.tenant,
        elim (Bool-cases (verify_chain_integrity h tenant_id after).valid) [
          | inr broken ↦ inl broken
          | inl valid ↦
              let intact = (verify_chain_integrity-valid h tenant_id after).0 valid in
              let hashed : IsHashed h a.row =
                placed (IsHashed h) a.row (entries_of tenant_id table) (
                  rw (sym entries_of-after)
                    (IsIntact-IsHashed h none (entries_of tenant_id after) intact)) in
              inr ((λ same. offsets now _ (reads _ _ same)), sym a.hash ∙ hashed)
        ],
      )

  -- The report on another tenant does not change.
  pub append_entry-elsewhere :
      (other : Uuid)
      → tenant_id ≢ other
      → verify_chain_integrity h other after ≡ verify_chain_integrity h other table
  unfolding verify_chain_integrity entries_of
  append_entry-elsewhere other differs =
      let a = append_entry-IsAppended in rw (a.grown, a.tenant, ==_ne tenant_id other differs) refl
