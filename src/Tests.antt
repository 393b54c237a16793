-- ===== src/Tests.antt =====
-- Concrete worlds and containers, and the theorems at them.
pub mod Fixtures
pub mod Platform
pub mod Tenants
pub mod Presentation
pub mod Auth
pub mod AuditLog
pub mod Access
pub mod Guards
pub mod Billing
pub mod Infrastructure
