-- ===== src/Retention/Laws.antt =====
-- What the retention engine deletes.
use eu_saas.Prelude.{
  subst, ◌⊎◌, sym, ◌∙◌, false≢true, ◌+◌, ◌-◌, ◌≤◌, ◌≡◌, ◌↔◌, refl, String, Bool, true, false,
  Option, Option-cases, inl, inr, some, List, [], ◌∷◌, ◌++◌, All, filter, Bool-cases, arith,
  append_assoc, append-nil,
}
use eu_saas.Domain.Values.{Time, days}
use eu_saas.Retention.{
  transactional, log, user_activity, uploaded_file, DataCategory, RetentionPolicy, days_for,
  ExpiredRecord, RetentionDatabase, returned, or_default, is_eligible, hard_delete_records,
  scan_from, scan_expired_records,
}

-- A record was soft-deleted, and its grace period has elapsed since then.
pub record IsDue (now : Time) (policy : RetentionPolicy) (r : ExpiredRecord) : Type 0 where
  pub marked : r.soft_deleted ≡ true
  pub marked_at : Time
  pub known : r.soft_deleted_at ≡ some marked_at
  pub elapsed : marked_at + days policy.grace_period_days ≤ now

-- A record is picked for hard deletion exactly if it is due.
pub is_eligible_iff :
    (now : Time) (policy : RetentionPolicy) (r : ExpiredRecord)
    → (is_eligible now policy r ≡ true) ↔ IsDue now policy r
unfolding is_eligible
is_eligible_iff now policy r = elim (Option-cases r.soft_deleted_at) [
  | inl e ↦ rw e (λ h. ground (arith, h), λ d. ground (arith, d.known))
  | inr (t, e) ↦ (
    λ h. record {
      marked = ground (arith, h, e);
      marked_at = t;
      known = e;
      elapsed = ground (arith, h, e);
    },
    λ d. ground (arith, d.marked, d.known, d.elapsed, e),
  )
]

filter-All : {A : Type 0} (p : A → Bool) (xs : List A) → All (λ x. p x ≡ true) (filter p xs)
filter-All p [] = tt
filter-All p (x ∷ xs) = elim (Bool-cases (p x)) [
  | inl e ↦ rw e (e, filter-All p xs)
  | inr e ↦ rw e (filter-All p xs)
]

filter_cases :
    {A : Type 0} (p : A → Bool) (xs : List A)
    → ((filter p xs ≡ []) × All (λ x. p x ≡ false) xs)
      ⊎ ((y : A) × (ys : List A) × (filter p xs ≡ y ∷ ys))
filter_cases p [] = inl (refl, tt)
filter_cases p (x ∷ xs) = elim (Bool-cases (p x)) [
  | inl e ↦ inr (x, filter p xs, rw e refl)
  | inr e ↦ elim (filter_cases p xs) [
    | inl (empty, none_passes) ↦ inl (rw e empty, (e, none_passes))
    | inr (y, ys, same) ↦ inr (y, ys, rw e same)
  ]
]

All-IsDue :
    (now : Time) (policy : RetentionPolicy) (rs : List ExpiredRecord)
    → All (λ r. is_eligible now policy r ≡ true) rs
    → All (IsDue now policy) rs
All-IsDue now policy [] h = tt
All-IsDue now policy (r ∷ rs) (h, hs) =
    ((is_eligible_iff now policy r).0 h, All-IsDue now policy rs hs)

none-IsDue :
    (now : Time) (policy : RetentionPolicy) (rs : List ExpiredRecord)
    → All (λ r. is_eligible now policy r ≡ false) rs
    → All (λ r. ¬ IsDue now policy r) rs
none-IsDue now policy [] h = tt
none-IsDue now policy (r ∷ rs) (h, hs) = (
  λ d. absurd (false≢true (sym h ∙ (is_eligible_iff now policy r).1 d)),
  none-IsDue now policy rs hs,
)

-- What a database finds for the categories, each with the cutoff of its limit.
abbrev pub answers :
    (DataCategory → Time → List ExpiredRecord)
    → RetentionPolicy
    → Time
    → List DataCategory
    → List ExpiredRecord
answers find policy now [] = []
answers find policy now (c ∷ cs) =
    find c (now - days (days_for policy c)) ++ answers find policy now cs

module _ {S : Type 0} (db : RetentionDatabase S) where
  scan_from-answers :
      (cs : List DataCategory) (tenant_id : String) (policy : RetentionPolicy) (now : Time)
      (found : List ExpiredRecord) (s : S) (find : DataCategory → Time → List ExpiredRecord)
      → ((c : DataCategory) (cutoff : Time)
          → db.find_expired_records tenant_id c cutoff s ≡ (returned (find c cutoff), s))
      → scan_from db cs tenant_id policy now found s
        ≡ (returned (found ++ answers find policy now cs), s)
  unfolding scan_from
  scan_from-answers [] tenant_id policy now found s find h = rw append-nil refl
  scan_from-answers (c ∷ cs) tenant_id policy now found s find h =
      let records = find c (now - days (days_for policy c)) in
      rw
        (
          h,
          scan_from-answers cs tenant_id policy now (found ++ records) s find h,
          append_assoc found records (answers find policy now cs),
        )
        refl

  -- If the database answers without a change, a scan returns what it finds for the four categories,
  -- each with the cutoff of its limit, in the order of the enumeration.
  pub scan_expired_records-answers :
      (tenant_id : String) (policy : Option RetentionPolicy) (s : S)
      (find : DataCategory → Time → List ExpiredRecord)
      → ((c : DataCategory) (cutoff : Time)
          → db.find_expired_records tenant_id c cutoff (db.now s).1
            ≡ (returned (find c cutoff), (db.now s).1))
      → scan_expired_records db tenant_id policy s ≡ (
        returned (
            answers find
              (or_default policy)
              (db.now s).0
              (transactional ∷ log ∷ user_activity ∷ uploaded_file ∷ [])),
        (db.now s).1,
      )
  unfolding scan_expired_records
  scan_expired_records-answers tenant_id policy s find h =
      scan_from-answers _ tenant_id (or_default policy) (db.now s).0 [] (db.now s).1 find h

  -- Either no record is due, and nothing is deleted, or the database is asked to delete records that
  -- are all due.
  pub hard_delete_records-IsDue :
      (records : List ExpiredRecord) (policy : Option RetentionPolicy) (s : S)
      → (All (λ r. ¬ IsDue (db.now s).0 (or_default policy) r) records
          × (hard_delete_records db records policy s ≡ (returned 0, (db.now s).1)))
        ⊎ ((r : ExpiredRecord) × (rs : List ExpiredRecord) × All
              (IsDue (db.now s).0 (or_default policy))
              (r ∷ rs)
            × (hard_delete_records db records policy s ≡ db.hard_delete (r ∷ rs) (db.now s).1))
  unfolding hard_delete_records
  hard_delete_records-IsDue records policy s =
      let now = (db.now s).0 in
      let p = or_default policy in
      elim (filter_cases (is_eligible now p) records) [
        | inl (empty, h) ↦ inl (none-IsDue now p records h, rw empty refl)
        | inr (r, rs, same) ↦ inr (
          r,
          rs,
          All-IsDue now p (r ∷ rs) (
              subst (All (λ r. is_eligible now p r ≡ true)) same
                (filter-All (is_eligible now p) records)),
          rw same refl,
        )
      ]
