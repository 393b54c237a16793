-- ===== src/AuditLog/Integrity.antt =====
-- What `verify_chain_integrity` finds out.
use eu_saas.Prelude.{
  ℕ, ◌+◌, ◌≡◌, ◌↔◌, refl, String, true, Option, none, some, List, [], ◌∷◌, nat_eq, string_eq,
  length, arith,
}
use eu_saas.Domain.Values.{Uuid}
use eu_saas.AuditLog.{
  Hashing, AuditLogModel, option_eq, payload, compute_hash, entries_of, first_broken,
  verify_chain_integrity, report, option_beq_iff,
}

-- Each entry names the hash of the one before it, and has the hash of its own fields.
abbrev pub IsIntact : Hashing → Option String → List AuditLogModel → Type 0
IsIntact h previous [] = Unit
IsIntact h previous (e ∷ es) =
    (e.previous_hash ≡ previous)
    × (e.chain_hash ≡ compute_hash h (payload h e))
    × IsIntact h (some e.chain_hash) es

module _ (h : Hashing) where
  first_broken-none :
      (previous : Option String) (idx : ℕ) (es : List AuditLogModel)
      → (first_broken h previous idx es ≡ none) ↔ IsIntact h previous es
  unfolding first_broken
  first_broken-none previous idx [] = (λ e. tt, λ i. refl)
  first_broken-none previous idx (e ∷ es) = ground (
    arith,
    first_broken-none (some e.chain_hash) (idx + 1) es,
    option_beq_iff e.previous_hash previous,
    string_eq.equal_iff e.chain_hash (compute_hash h (payload h e)),
  )

  report-valid : (n : ℕ) (o : Option (ℕ × Uuid)) → ((report n o).valid ≡ true) ↔ (o ≡ none)
  report-valid n none = ground arith
  report-valid n (some (i, id)) = ground arith

  report-total : (n : ℕ) (o : Option (ℕ × Uuid)) → (report n o).total_entries ≡ n
  report-total n none = refl
  report-total n (some (i, id)) = refl

  -- A tenant's log is reported as valid exactly if it is intact.
  pub verify_chain_integrity-valid :
      (tenant_id : Uuid) (table : List AuditLogModel)
      → ((verify_chain_integrity h tenant_id table).valid ≡ true)
        ↔ IsIntact h none (entries_of tenant_id table)
  unfolding verify_chain_integrity
  verify_chain_integrity-valid tenant_id table =
      let entries = entries_of tenant_id table in
      let (there, back) = report-valid (length entries) (first_broken h none 0 entries) in
      let (intact, fine) = first_broken-none none 0 entries in
      (λ v. intact (there v), λ i. back (fine i))

  pub verify_chain_integrity-total :
      (tenant_id : Uuid) (table : List AuditLogModel)
      → (verify_chain_integrity h tenant_id table).total_entries
        ≡ length (entries_of tenant_id table)
  unfolding verify_chain_integrity
  verify_chain_integrity-total tenant_id table = report-total _ _
