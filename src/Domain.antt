-- ===== src/Domain.antt =====
-- src/domain: the models, the error types and the lifecycle service.
pub mod Values
pub mod Decimal
pub mod Tenant
pub mod User
pub mod Audit
pub mod Billing
pub mod Errors
pub mod Lifecycle
