-- ===== src/Services.antt =====
-- src/application/services: the use cases, as actions on the container.
pub mod Auditing
pub mod Respect
pub mod Registry
pub mod Tenants
pub mod Auth
pub mod Gdpr
pub mod CostCalculator
pub mod Billing
