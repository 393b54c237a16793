-- ===== src/AuditLog.antt =====
-- src/infrastructure/database/repository.py: AuditRepository. The table is the list of its rows,
-- newest first; `order_by` on it is a stable sort. SHA-256 over the UTF-8 text and `json.dumps`
-- with sorted keys are parameters.
pub mod Integrity
pub mod Tampering
pub mod Appending
use eu_saas.Prelude.{
  none_or, ℕ, ◌+◌, ◌≡◌, ◌↔◌, String, Bool, true, false, not, Option, none, some, List, [], ◌∷◌, ltb,
  leb, ◌&&◌, ◌==◌, Comparable, nat_eq, string_eq, if◌then◌else◌, filter, length, take, drop, arith,
  find,
}
use eu_saas.Domain.Values.{Uuid, Time, Attributes}
use eu_saas.Domain.Audit.{AuditAction, action_value}

-- The fields that the hash covers.
pub record Payload : Type 0 where
  pub tenant_id : Uuid
  pub actor_id : Option Uuid
  pub action : String
  pub resource_type : String
  pub resource_id : Option String
  pub details : Option Attributes
  pub timestamp : String
  pub previous_hash : Option String

-- `datetime.isoformat`: of `utcnow()`, which has no offset, and of a time that the column with a time
-- zone gives back, which has one; and the time that is given back for the one that was written.
pub record Hashing : Type 0 where
  pub sha256 : String → String
  pub dumps : Payload → String
  pub naive_isoformat : Time → String
  pub aware_isoformat : Time → String
  pub stored : Time → Time

-- `AuditLogModel`
pub record AuditLogModel : Type 0 where
  pub id : Uuid
  pub tenant_id : Uuid
  pub actor_id : Option Uuid
  pub action : AuditAction
  pub resource_type : String
  pub resource_id : Option String
  pub details : Option Attributes
  pub ip_address : Option String
  pub chain_hash : String
  pub previous_hash : Option String
  pub timestamp : Time

pub record Report : Type 0 where
  pub valid : Bool
  pub total_entries : ℕ
  pub broken_at_index : Option ℕ
  pub broken_entry_id : Option Uuid

abbrev option_beq : Option String → Option String → Bool
option_beq none none = true
option_beq none (some t) = false
option_beq (some s) none = false
option_beq (some s) (some t) = s == t

pub option_beq_iff : (o p : Option String) → (option_beq o p ≡ Bool.true) ↔ (o ≡ p)
option_beq_iff none none = ground arith
option_beq_iff none (some t) = ground arith
option_beq_iff (some s) none = ground arith
option_beq_iff (some s) (some t) = ground (arith, string_eq.equal_iff s t)

instance abbrev pub option_eq : Comparable (Option String)
option_eq = record { equal = option_beq; equal_iff = option_beq_iff }

-- The fields of an entry that `_compute_hash` is given.
unfoldable pub payload : Hashing → AuditLogModel → Payload
payload h e = record {
  tenant_id = e.tenant_id;
  actor_id = e.actor_id;
  action = action_value e.action;
  resource_type = e.resource_type;
  resource_id = e.resource_id;
  details = e.details;
  timestamp = h.aware_isoformat e.timestamp;
  previous_hash = e.previous_hash;
}

-- `_compute_hash`
unfoldable pub compute_hash : Hashing → Payload → String
compute_hash h p = h.sha256 (h.dumps p)

-- `order_by(timestamp.asc())`: a new row goes behind the rows that are not later.
unfoldable pub place : AuditLogModel → List AuditLogModel → List AuditLogModel
place e [] = e ∷ []
place e (f ∷ fs) = if leb f.timestamp e.timestamp then f ∷ place e fs else e ∷ f ∷ fs

unfoldable pub by_timestamp : List AuditLogModel → List AuditLogModel
by_timestamp [] = []
by_timestamp (e ∷ table) = place e (by_timestamp table)

-- `where(tenant_id == …).order_by(timestamp.asc())`
unfoldable pub entries_of : Uuid → List AuditLogModel → List AuditLogModel
entries_of tenant_id table = by_timestamp (filter (λ e. e.tenant_id == tenant_id) table)

-- An entry that the optional filters of `get_entries_by_tenant` let through.
abbrev pub is_wanted : Option AuditAction → Option Time → Option Time → AuditLogModel → Bool
is_wanted action start end e =
    none_or (λ a. action_value e.action == action_value a) action
    && none_or (λ t. leb t e.timestamp) start
    && none_or (λ t. leb e.timestamp t) end

unfoldable pub get_entries_by_tenant :
    Uuid
    → Option AuditAction
    → (start end : Option Time) (offset limit : ℕ) → List AuditLogModel
    → List AuditLogModel
get_entries_by_tenant tenant_id action start end offset limit table = take limit (
    drop offset (
      by_timestamp
        (filter (λ e. (e.tenant_id == tenant_id) && is_wanted action start end e) table)))

abbrev pub last_hash : Option String → List AuditLogModel → Option String
last_hash previous [] = previous
last_hash previous (e ∷ es) = last_hash (some e.chain_hash) es

abbrev pub hash_of : Option AuditLogModel → Option String
hash_of none = none
hash_of (some e) = some e.chain_hash

-- What the database gives for `ORDER BY timestamp DESC LIMIT 1`: of several rows of the latest time,
-- it is not said which.
abbrev pub Latest : Type 0
Latest = List AuditLogModel → Option AuditLogModel

-- `_get_latest_hash`
unfoldable pub get_latest_hash : Latest → Uuid → List AuditLogModel → Option String
get_latest_hash latest tenant_id table =
    hash_of (latest (filter (λ e. e.tenant_id == tenant_id) table))

-- `append_entry`, given the id that the database draws and the time.
unfoldable pub append_entry :
    Hashing
    → Latest
    → (id tenant_id : Uuid) → AuditAction
    → (resource_type : String) → Option Uuid
    → (resource_id : Option String) → Option Attributes
    → (ip_address : Option String) (now : Time) → List AuditLogModel
    → List AuditLogModel
append_entry h latest id tenant_id action resource_type actor_id resource_id details ip_address now
      table =
    let previous_hash = get_latest_hash latest tenant_id table in
    let chain_hash = compute_hash h (record {
      tenant_id = tenant_id;
      actor_id = actor_id;
      action = action_value action;
      resource_type = resource_type;
      resource_id = resource_id;
      details = details;
      timestamp = h.naive_isoformat now;
      previous_hash = previous_hash;
    }) in
    record {
      id = id;
      tenant_id = tenant_id;
      actor_id = actor_id;
      action = action;
      resource_type = resource_type;
      resource_id = resource_id;
      details = details;
      ip_address = ip_address;
      chain_hash = chain_hash;
      previous_hash = previous_hash;
      timestamp = h.stored now;
    }
    ∷ table

-- The loop of `verify_chain_integrity`: the index and the id of the first entry that is broken.
unfoldable pub first_broken : Hashing → Option String → ℕ → List AuditLogModel → Option (ℕ × Uuid)
first_broken h previous_hash idx [] = none
first_broken h previous_hash idx (e ∷ es) =
    let rest = first_broken h (some e.chain_hash) (idx + 1) es in
    if not (e.previous_hash == previous_hash)
    then some (idx, e.id)
    else if not (e.chain_hash == compute_hash h (payload h e))
    then some (idx, e.id)
    else rest

abbrev report : ℕ → Option (ℕ × Uuid) → Report
report total none = record {
  valid = true;
  total_entries = total;
  broken_at_index = none;
  broken_entry_id = none;
}
report total (some (idx, id)) = record {
  valid = false;
  total_entries = total;
  broken_at_index = some idx;
  broken_entry_id = some id;
}

unfoldable pub verify_chain_integrity : Hashing → Uuid → List AuditLogModel → Report
verify_chain_integrity h tenant_id table =
    let entries = entries_of tenant_id table in
    report (length entries) (first_broken h none 0 entries)
