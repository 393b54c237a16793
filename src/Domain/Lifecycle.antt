-- ===== src/Domain/Lifecycle.antt =====
-- src/domain/services/tenant_lifecycle.py
pub mod Order
use eu_saas.Prelude.{String, Bool, List, [], ◌∷◌, contains}
use eu_saas.Domain.Tenant.{
  TenantStatus, pending, provisioning, active, suspended, deprovisioning, deleted, status_eq,
}

-- `VALID_TRANSITIONS`
unfoldable pub valid_transitions : TenantStatus → List TenantStatus
valid_transitions pending = provisioning ∷ deleted ∷ []
valid_transitions provisioning = active ∷ deleted ∷ []
valid_transitions active = suspended ∷ deprovisioning ∷ []
valid_transitions suspended = active ∷ deprovisioning ∷ []
valid_transitions deprovisioning = deleted ∷ []
valid_transitions deleted = []

unfoldable pub validate_transition : TenantStatus → TenantStatus → Bool
unfolding valid_transitions
validate_transition current_state new_state = contains new_state (valid_transitions current_state)

-- `_TRANSITION_ACTIONS`, with `[]` for a pair that is no key.
pub get_transition_actions : TenantStatus → TenantStatus → List String
get_transition_actions pending provisioning =
    "create_schema" ∷ "initialize_default_settings" ∷ "send_provisioning_notification" ∷ []
get_transition_actions provisioning active =
    "activate_schema" ∷ "enable_api_access" ∷ "send_welcome_notification" ∷ []
get_transition_actions provisioning deleted =
    "cleanup_partial_schema" ∷ "send_failure_notification" ∷ []
get_transition_actions active suspended = "disable_api_access" ∷ "send_suspension_notification" ∷ []
get_transition_actions active deprovisioning =
    "disable_api_access" ∷ "schedule_data_export" ∷ "send_deprovisioning_notification" ∷ []
get_transition_actions suspended active =
    "enable_api_access" ∷ "send_reactivation_notification" ∷ []
get_transition_actions suspended deprovisioning =
    "schedule_data_export" ∷ "send_deprovisioning_notification" ∷ []
get_transition_actions deprovisioning deleted =
    "delete_schema" ∷ "purge_tenant_data" ∷ "send_deletion_confirmation" ∷ []
get_transition_actions pending deleted = "send_cancellation_notification" ∷ []
get_transition_actions current_state new_state = []
