-- ===== src/Retention.antt =====
-- src/infrastructure/gdpr/retention_engine.py. The `RetentionDatabase` and the clock are a parameter
-- that acts on a state of its own. Limits are natural numbers of days; a cutoff before the epoch is
-- cut off at the epoch.
pub mod Laws
use eu_saas.Prelude.{
  ℕ, ◌+◌, ◌-◌, String, Bool, true, false, not, Option, none, some, List, [], ◌∷◌, ◌++◌, leb, ◌&&◌,
  filter,
}
use eu_saas.Domain.Values.{Time, days}

pub data DataCategory : Type 0 where
  transactional log user_activity uploaded_file : DataCategory

pub record RetentionPolicy : Type 0 where
  pub transactional_data_days : ℕ
  pub log_data_days : ℕ
  pub user_activity_days : ℕ
  pub uploaded_files_days : ℕ
  pub grace_period_days : ℕ

-- `DEFAULT_POLICY`
abbrev pub default_policy : RetentionPolicy
default_policy = record {
  transactional_data_days = 90;
  log_data_days = 365;
  user_activity_days = 180;
  uploaded_files_days = 365;
  grace_period_days = 30;
}

unfoldable pub days_for : RetentionPolicy → DataCategory → ℕ
days_for policy transactional = policy.transactional_data_days
days_for policy log = policy.log_data_days
days_for policy user_activity = policy.user_activity_days
days_for policy uploaded_file = policy.uploaded_files_days

pub record ExpiredRecord : Type 0 where
  pub tenant_id : String
  pub table_name : String
  pub record_id : String
  pub category : DataCategory
  pub created_at : Time
  pub expired_at : Time
  pub soft_deleted : Bool
  pub soft_deleted_at : Option Time

-- How a call of the database ends: with its value, or with an exception of that text.
pub data Reply (A : Type 0) : Type 0 where
  returned : A → Reply A
  raised : (message : String) → Reply A

pub record RetentionDatabase (S : Type 0) : Type 0 where
  pub find_expired_records : String → DataCategory → Time → S → Reply (List ExpiredRecord) × S
  pub soft_delete : List ExpiredRecord → S → Reply ℕ × S
  pub hard_delete : List ExpiredRecord → S → Reply ℕ × S
  pub now : S → Time × S

-- `policy or DEFAULT_POLICY`
abbrev pub or_default : Option RetentionPolicy → RetentionPolicy
or_default none = default_policy
or_default (some policy) = policy

-- `for category in DataCategory`
abbrev categories : List DataCategory
categories = transactional ∷ log ∷ user_activity ∷ uploaded_file ∷ []

-- `r.soft_deleted_at is not None and (now - r.soft_deleted_at) >= grace`; the difference may be
-- negative, so the test is written as a sum.
abbrev pub has_elapsed : Time → Time → Option Time → Bool
has_elapsed now grace none = false
has_elapsed now grace (some t) = leb (t + grace) now

unfoldable pub is_eligible : Time → RetentionPolicy → ExpiredRecord → Bool
is_eligible now policy r =
    r.soft_deleted && has_elapsed now (days policy.grace_period_days) r.soft_deleted_at

module _ {S : Type 0} (db : RetentionDatabase S) where
  -- `if not records: return 0`, and otherwise the call.
  abbrev unless_empty :
      (List ExpiredRecord → S → Reply ℕ × S) → List ExpiredRecord → S → Reply ℕ × S
  unless_empty delete [] s = (returned 0, s)
  unless_empty delete (r ∷ rs) s = delete (r ∷ rs) s

  unfoldable pub soft_delete_records : List ExpiredRecord → S → Reply ℕ × S
  soft_delete_records records s =
      unless_empty db.soft_delete (filter (λ r. not r.soft_deleted) records) s

  unfoldable pub hard_delete_records : List ExpiredRecord → Option RetentionPolicy → S → Reply ℕ × S
  hard_delete_records records policy s =
      let (now, t) = db.now s in
      unless_empty db.hard_delete (filter (is_eligible now (or_default policy)) records) t

  abbrev extended :
      List ExpiredRecord
      → (List ExpiredRecord → S → Reply (List ExpiredRecord) × S)
      → Reply (List ExpiredRecord) × S
      → Reply (List ExpiredRecord) × S
  extended found rest (returned records, s) = rest (found ++ records) s
  extended found rest (raised message, s) = (raised message, s)

  -- The loop over the categories.
  unfoldable pub scan_from :
      List DataCategory
      → String
      → RetentionPolicy
      → Time
      → List ExpiredRecord
      → S
      → Reply (List ExpiredRecord) × S
  scan_from [] tenant_id policy now found s = (returned found, s)
  scan_from (category ∷ rest) tenant_id policy now found s =
      extended found (scan_from rest tenant_id policy now)
        (db.find_expired_records tenant_id category (now - days (days_for policy category)) s)

  unfoldable pub scan_expired_records :
      String → Option RetentionPolicy → S → Reply (List ExpiredRecord) × S
  scan_expired_records tenant_id policy s =
      let (now, t) = db.now s in scan_from categories tenant_id (or_default policy) now [] t
