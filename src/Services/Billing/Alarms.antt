-- ===== src/Services/Billing/Alarms.antt =====
-- What `check_anomalies` returns, stores and logs.
use eu_saas.Prelude.{
  subst, ℕ, ◌+◌, ◌-◌, ◌≡◌, refl, ap, sym, ◌∙◌, Bool, true, false, ◌&&◌, if◌then◌else◌, Option, none,
  some, List, [], ◌∷◌, ◌++◌, length, Dict, lookup, ◌==◌, nat_eq, All, append-nil,
}
use eu_saas.Prelude.Totals.{lookup-entries}
use eu_saas.Domain.Values.{Uuid, Date}
use eu_saas.Domain.Audit.{AuditEntry, audit_entry, cost_anomaly_detected}
use eu_saas.Domain.Decimal.{Decimal, zero_decimal}
use eu_saas.Domain.Decimal.Laws.{decimal_additive}
use eu_saas.Domain.Billing.{ResourceType, resource_eq, CostRecord, CostAnomaly, Float}
use eu_saas.Container.{ok_inj, Container, World, ok, ◌>>◌, when, pure, call, running}
use eu_saas.Container.Follows.{Preorder}
use eu_saas.Container.Yields.{Yields, yielded, >>=-Yields, pure-Yields, call-Yields, if-Yields}
use eu_saas.Services.CostCalculator.{found, flagged, detect_anomaly}
use eu_saas.Services.Billing.Detection.{daily_totals-IsUnique, costs_on, daily_totals-amounts}
use eu_saas.Services.Billing.Totals.{total_of}
use eu_saas.Services.Auditing.{create_audit_entry}
use eu_saas.Adapters.AuditEntries
use eu_saas.Adapters.Anomalies as AnomalyRepo
use eu_saas.Adapters.Costs.{get_by_tenant_and_range}
use eu_saas.Services.Billing.{
  or_empty, or_zero, daily_totals, current, examine, examine_all, with_owner, check_anomalies,
  costs_between, is_filled, report,
}

-- Nothing but the number of calls is changed.
pub record OnlyCalls (s t : Container) : Type 0 where
  pub calls : ℕ
  pub same : t ≡ record s { calls = calls }

OnlyCalls-trans : (s t u : Container) → OnlyCalls s t → OnlyCalls t u → OnlyCalls s u
OnlyCalls-trans s t u h k =
    let moved : record t { calls = k.calls } ≡ record s { calls = k.calls } =
      ap (λ (x : Container). record x { calls = k.calls }) h.same in
    record { calls = k.calls; same = k.same ∙ moved }

pub OnlyCalls-preorder : Preorder OnlyCalls
OnlyCalls-preorder = record {
  reflexive = λ s. record { calls = s.calls; same = refl };
  transitive = OnlyCalls-trans;
  calling = λ s. record { calls = s.calls + 1; same = refl };
}

and_false : (b : Bool) → (b && false) ≡ false
and_false true = refl
and_false false = refl

module _ (w : World) where
  -- An anomaly with that value as the actual one.
  abbrev Reads : Float → Option CostAnomaly → Type 0
  Reads value none = Unit
  Reads value (some anomaly) = anomaly.actual_value ≡ w.floats.rounded value

  found-Yields :
      (value : Float) (history : List Float) (factor : Float)
      → Yields OnlyCalls (found w value history factor) (Reads value)
  unfolding found
  found-Yields value history factor =
      >>=-Yields OnlyCalls-preorder (call w.uuid4) _ _ (call-Yields OnlyCalls-preorder w.uuid4)
        λ id _.
          >>=-Yields OnlyCalls-preorder (call w.now) _ _ (call-Yields OnlyCalls-preorder w.now)
            λ now _.
              >>=-Yields OnlyCalls-preorder (call w.uuid4) _ _
                (call-Yields OnlyCalls-preorder w.uuid4)
                λ tenant _. pure-Yields OnlyCalls-preorder _ (Reads value) refl

  nothing-Yields : (value : Float) → Yields OnlyCalls (pure none) (Reads value)
  nothing-Yields value = pure-Yields OnlyCalls-preorder none (Reads value) tt

  flagged-Yields :
      (value : Float) (history : List Float) (factor : Option Float)
      → Yields OnlyCalls (flagged w value history factor) (Reads value)
  unfolding flagged
  flagged-Yields value history none = nothing-Yields value
  flagged-Yields value history (some factor) =
      if-Yields OnlyCalls-preorder _ _ _ _ (found-Yields value history factor)
        (nothing-Yields value)

  detect_anomaly-Yields :
      (value : Float) (history : List Float)
      → Yields OnlyCalls (detect_anomaly w value history) (Reads value)
  unfolding detect_anomaly
  detect_anomaly-Yields value history =
      if-Yields OnlyCalls-preorder _ _ _ _ (nothing-Yields value) (flagged-Yields value history _)

  examine-Yields :
      (today : Date) (date_map : Dict Date Decimal)
      → Yields OnlyCalls (examine w today date_map) (Reads (current w today date_map))
  unfolding examine
  examine-Yields today date_map =
      if-Yields OnlyCalls-preorder _ _ _ _ (nothing-Yields _)
        (if-Yields OnlyCalls-preorder _ _ _ _ (detect_anomaly-Yields _ _) (nothing-Yields _))

  -- An anomaly of the tenant, with the cost of its resource type today as the actual value.
  pub record IsOfToday (tenant_id : Uuid) (today : Date) (records : List CostRecord)
      (anomaly : CostAnomaly) : Type 0 where
    pub owner : anomaly.tenant_id ≡ tenant_id
    pub actual :
        anomaly.actual_value
        ≡ w.floats.rounded
            (w.floats.float (or_zero (total_of (costs_on anomaly.resource_type today records))))

  All-append :
      (P : CostAnomaly → Type 0) (xs ys : List CostAnomaly) → All P xs → All P ys → All P (xs ++ ys)
  All-append P [] ys h k = k
  All-append P (x ∷ xs) ys (p, h) k = (p, All-append P xs ys h k)

  module _ (tenant_id : Uuid) (today : Date) (records : List CostRecord) where
    owned :
        (t : ResourceType) (date_map : Dict Date Decimal) (anomaly : Option CostAnomaly)
        → lookup t (daily_totals [] records) ≡ some date_map
        → Reads (current w today date_map) anomaly
        → All (IsOfToday tenant_id today records) (with_owner w tenant_id t anomaly)
    owned t date_map none e h = tt
    owned t date_map (some anomaly) e h =
        let amount : lookup today date_map ≡ total_of (costs_on t today records) =
          ap (λ m. lookup today (or_empty m)) (sym e) ∙ daily_totals-amounts t today records in
        (
          record {
            owner = refl;
            actual = h ∙ ap (λ a. w.floats.rounded (w.floats.float (or_zero a))) amount;
          },
          tt,
        )

    examine_all-Yields :
        (part : Dict ResourceType (Dict Date Decimal))
        → All (λ e. lookup e.0 (daily_totals [] records) ≡ some e.1) part
        → Yields OnlyCalls
            (examine_all w tenant_id today part)
            (λ anomalies. All (IsOfToday tenant_id today records) anomalies)
    unfolding examine_all
    examine_all-Yields [] h = pure-Yields OnlyCalls-preorder [] _ tt
    examine_all-Yields ((t, m) ∷ part) (e, h) =
        let rest = examine_all-Yields part h in
        >>=-Yields OnlyCalls-preorder (examine w today m) _ _ (examine-Yields today m)
          λ anomaly reads.
            >>=-Yields OnlyCalls-preorder (examine_all w tenant_id today part) _ _ rest
              λ others good. pure-Yields OnlyCalls-preorder _ _ (
                All-append _ (with_owner w tenant_id t anomaly) others (owned t m anomaly e reads)
                  good)

  -- The costs that a run on a container looks at.
  abbrev pub window : Uuid → Container → List CostRecord
  window tenant_id s =
      let today = w.today s.calls in get_by_tenant_and_range s.costs tenant_id (today - 7) today

  -- The anomalies are stored, and logged by one entry if there are any.
  pub record IsReported (tenant_id : Uuid) (s : Container) (anomalies : List CostAnomaly)
      (t : Container) : Type 0 where
    pub found : All (IsOfToday tenant_id (w.today s.calls) (window tenant_id s)) anomalies
    pub stored : t.anomalies ≡ s.anomalies ++ anomalies
    pub entries : List AuditEntry
    pub logged : t.audit ≡ s.audit ++ entries
    pub single : length entries ≡ (if is_filled anomalies then 1 else 0)
    pub about : All (λ e. (e.tenant_id ≡ tenant_id) × (e.action ≡ cost_anomaly_detected)) entries
    pub costs : t.costs ≡ s.costs

  append_same : {xs ys : List AuditEntry} (e : AuditEntry) → xs ≡ ys → xs ++ e ∷ [] ≡ ys ++ e ∷ []
  append_same e same = ap (λ zs. zs ++ e ∷ []) same

  finished :
      (tenant_id : Uuid) (s t : Container) (anomalies : List CostAnomaly)
      → OnlyCalls s t
      → All (IsOfToday tenant_id (w.today s.calls) (window tenant_id s)) anomalies
      → let r = (when (is_filled anomalies) (report w tenant_id anomalies) >> pure anomalies) t in
        (r.0 ≡ ok anomalies) × IsReported tenant_id s anomalies r.1
  unfolding running report create_audit_entry audit_entry AnomalyRepo.save_many AuditEntries.save
  finished tenant_id s t [] h good = (
    refl,
    record {
      found = good;
      stored = ap (λ (u : Container). u.anomalies) h.same ∙ sym (append-nil s.anomalies);
      entries = [];
      logged = ap (λ (u : Container). u.audit) h.same ∙ sym (append-nil s.audit);
      single = refl;
      about = tt;
      costs = ap (λ (u : Container). u.costs) h.same;
    },
  )
  finished tenant_id s t (a ∷ anomalies) h good = (
    refl,
    record {
      found = good;
      stored = ap (λ (u : Container). u.anomalies ++ a ∷ anomalies) h.same;
      entries = _ ∷ [];
      logged = append_same _ (ap (λ (u : Container). u.audit) h.same);
      single = refl;
      about = ((refl, refl), tt);
      costs = ap (λ (u : Container). u.costs) h.same;
    },
  )

  pub check_anomalies-IsReported :
      (tenant_id : Uuid) (s : Container)
      → (anomalies : List CostAnomaly) × ((check_anomalies w tenant_id s).0 ≡ ok anomalies)
        × IsReported tenant_id s anomalies (check_anomalies w tenant_id s).1
  unfolding check_anomalies costs_between running
  check_anomalies-IsReported tenant_id s =
      let today = w.today s.calls in
      let records = window tenant_id s in
      let next : Container = record s { calls = s.calls + 1 } in
      let totals = daily_totals [] records in
      let (anomalies, t, e, only, good) =
        yielded (examine_all w tenant_id today totals)
          (examine_all-Yields tenant_id today records totals
            (lookup-entries totals (daily_totals-IsUnique records)))
          next in
      let (returned, reported) =
        finished tenant_id s t anomalies (record { calls = only.calls; same = only.same }) good in
      (anomalies, rw e returned, rw e reported)

  costs_on_none :
      (t : ResourceType) (today : Date) (records : List CostRecord)
      → All (λ r. (r.date == today) ≡ false) records
      → costs_on t today records ≡ []
  costs_on_none t today [] h = refl
  costs_on_none t today (r ∷ records) (other, h) =
      rw (other, and_false (r.resource_type == t)) (costs_on_none t today records h)

  all_zero :
      (tenant_id : Uuid) (today : Date) (records : List CostRecord)
      → All (λ r. (r.date == today) ≡ false) records
      → (anomalies : List CostAnomaly) → All (IsOfToday tenant_id today records) anomalies
      → All (λ a. a.actual_value ≡ w.floats.rounded (w.floats.float zero_decimal)) anomalies
  all_zero tenant_id today records h [] good = tt
  all_zero tenant_id today records h (a ∷ anomalies) (one, good) = (
    one.actual
        ∙ ap (λ xs. w.floats.rounded (w.floats.float (or_zero (total_of xs))))
            (costs_on_none a.resource_type today records h),
    all_zero tenant_id today records h anomalies good,
  )

  -- If the tenant has no cost of today, every anomaly has the actual value zero.
  pub check_anomalies-blind :
      (tenant_id : Uuid) (s : Container) (anomalies : List CostAnomaly)
      → All (λ r. (r.date == w.today s.calls) ≡ false) (window tenant_id s)
      → (check_anomalies w tenant_id s).0 ≡ ok anomalies
      → All (λ a. a.actual_value ≡ w.floats.rounded (w.floats.float zero_decimal)) anomalies
  check_anomalies-blind tenant_id s anomalies none_today e =
      let (others, returned, reported) = check_anomalies-IsReported tenant_id s in
      subst (λ xs. All (λ a. a.actual_value ≡ w.floats.rounded (w.floats.float zero_decimal)) xs)
        (ok_inj (sym returned ∙ e))
        (all_zero tenant_id (w.today s.calls) (window tenant_id s) none_today others reported.found)
