-- ===== src/Tests/AuditLog.antt =====
-- Rows of the audit table, and what an append does to it.
use eu_saas.Prelude.{
  ap, code, nat_beq, if◌then◌else◌, ℕ, ◌≡◌, ◌≢◌, ◌⊎◌, ◌↔◌, String, true, false, none, some, List,
  [], ◌∷◌, nat_eq, string_eq, arith, Option,
}
use eu_saas.Domain.Values.{Time}
use eu_saas.Domain.Audit.{user_login}
use eu_saas.AuditLog.{
  Hashing, Latest, AuditLogModel, append_entry, entries_of, verify_chain_integrity,
}
use eu_saas.AuditLog.Integrity.{IsIntact, verify_chain_integrity-valid}
use eu_saas.AuditLog.Appending.{written, read, append_entry-invalid}

-- The payload as its previous hash: enough to tell what that was.
abbrev dump : Option String → String
dump none = "-"
dump (some t) = String.◌∷◌ "+" t

abbrev hashing : Hashing
hashing = record {
  sha256 = λ t. t;
  dumps = λ p. dump p.previous_hash;
  naive_isoformat = λ t. "T";
  aware_isoformat = λ t. "Z";
  stored = λ t. t;
}

-- A row that is chained to the given hash.
abbrev row : ℕ → Option String → Option String → Time → AuditLogModel
row id ip_address previous_hash now = record {
  id = id;
  tenant_id = 7;
  actor_id = none;
  action = user_login;
  resource_type = "user";
  resource_id = none;
  details = none;
  ip_address = ip_address;
  chain_hash = dump previous_hash;
  previous_hash = previous_hash;
  timestamp = now;
}

-- Two tables of two rows, which differ in ids and addresses.
abbrev table : List AuditLogModel
table = row 2 none (some "-") 5 ∷ row 1 none none 4 ∷ []

abbrev moved : List AuditLogModel
moved = row 4 (some "10.0.0.1") (some "-") 5 ∷ row 3 none none 4 ∷ []

verify_chain_integrity-valid_example :
    ((verify_chain_integrity hashing 7 table).valid ≡ true)
    ↔ IsIntact hashing none (entries_of 7 table)
verify_chain_integrity-valid_example = verify_chain_integrity-valid hashing 7 table

abbrev undump : String → Option String
undump String.[] = none
undump (String.◌∷◌ c t) = if nat_beq (code c) b'+' then some t else none

-- The payload as its time.
abbrev timed : Hashing
timed = record hashing { dumps = λ p. p.timestamp }

abbrev newest : Latest
newest [] = none
newest (e ∷ es) = some e

abbrev first : String → ℕ
first String.[] = 0
first (String.◌∷◌ c t) = code c

apart : (s t : Time) → timed.naive_isoformat s ≢ timed.aware_isoformat t
apart s t e = let same : first "T" ≡ first "Z" = ap first e in omega (arith, same)

append_entry-invalid_example :
    let after = append_entry timed newest 5 7 user_login "user" none none none none 6 table in
    (added : AuditLogModel) × (after ≡ added ∷ table)
    × (added.tenant_id ≡ 7)
    × (((verify_chain_integrity timed 7 after).valid ≡ false)
        ⊎ ((written timed 6 added ≢ read timed added)
            × (timed.sha256 (written timed 6 added) ≡ timed.sha256 (read timed added))))
append_entry-invalid_example =
    append_entry-invalid timed newest 5 7 user_login "user" none none none none 6 table apart
      (λ a b e. e)
