-- ===== src/Domain/Lifecycle/Order.antt =====
-- The lifecycle as a state machine: what can follow what.
use eu_saas.Prelude.{subst, ℕ, ◌≤◌, ◌≡◌, ◌≢◌, ◌↔◌, refl, true, [], arith}
use eu_saas.Domain.Tenant.{
  TenantStatus, pending, provisioning, active, suspended, deprovisioning, deleted,
  valid_state_transitions,
}
use eu_saas.Domain.Lifecycle.{valid_transitions, validate_transition, get_transition_actions}

-- Zero or more transitions that the service validates.
pub data Reaches (a : TenantStatus) : TenantStatus → Type 0 where
  here : Reaches a a
  next :
      {b : TenantStatus}
      → Reaches a b
      → (c : TenantStatus) → validate_transition b c ≡ true
      → Reaches a c

pub Reaches-trans : {a b c : TenantStatus} → Reaches a b → Reaches b c → Reaches a c
Reaches-trans p here = p
Reaches-trans p (next q c h) = next (Reaches-trans p q) c h

-- The two transition tables, that of the model and that of the service, agree.
pub tables_agree : (a : TenantStatus) → valid_transitions a ≡ valid_state_transitions a
unfolding valid_transitions valid_state_transitions
tables_agree pending = refl
tables_agree _ = refl

-- A transition has actions exactly if it is valid.
pub actions_iff_valid :
    (a b : TenantStatus) → (get_transition_actions a b ≢ []) ↔ (validate_transition a b ≡ true)
unfolding get_transition_actions validate_transition
actions_iff_valid a b = ground arith

-- How far a tenant has come; ACTIVE and SUSPENDED are one stage.
abbrev pub stage : TenantStatus → ℕ
stage pending = 0
stage provisioning = 1
stage active = 2
stage suspended = 2
stage deprovisioning = 3
stage deleted = 4

transition-stage : (a b : TenantStatus) → validate_transition a b ≡ true → stage a ≤ stage b
unfolding validate_transition
transition-stage a b h = ground arith

-- No sequence of transitions leads back to an earlier stage.
pub Reaches-stage : {a b : TenantStatus} → Reaches a b → stage a ≤ stage b
Reaches-stage here = omega arith
Reaches-stage (next {b} p c h) = omega (arith, Reaches-stage p, transition-stage b c h)

-- DELETED is final.
pub Reaches-deleted : {b : TenantStatus} → Reaches deleted b → b ≡ deleted
unfolding validate_transition
Reaches-deleted here = refl
Reaches-deleted (next {b} p c h) =
    ground
      (arith, Reaches-deleted p, subst (λ a. validate_transition a c ≡ true) (Reaches-deleted p) h)
