-- ===== src/AuditLog/Tampering.antt =====
-- What an intact log leaves open to change.
use eu_saas.Prelude.{◌≡◌, ◌≢◌, ◌⊎◌, String, Option, none, List, [], ◌∷◌, map, true}
use eu_saas.AuditLog.{
  entries_of, verify_chain_integrity, none, true, String, List, Option, Hashing, AuditLogModel,
  payload, entries_of, verify_chain_integrity,
}

abbrev pub Has : String → List String → Type 0
Has x [] = ⊥
Has x (y ∷ ys) = (x ≡ y) ⊎ Has x ys

-- What was hashed of two lists of entries holds a collision of SHA-256.
pub record Collides (h : Hashing) (es fs : List String) : Type 0 where
  pub one : String
  pub other : String
  pub one_of : Has one es
  pub other_of : Has other fs
  pub differ : one ≢ other
  pub same : h.sha256 one ≡ h.sha256 other

abbrev pub dumped : Hashing → List AuditLogModel → List String
dumped h es = map (λ e. h.dumps (payload h e)) es
