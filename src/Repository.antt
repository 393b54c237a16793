-- ===== src/Repository.antt =====
-- TenantRepository, UserRepository and BillingRepository of
-- src/infrastructure/database/repository.py, over the tables of models.py. A table is the list of
-- its rows, a statement that breaks a uniqueness constraint raises and changes nothing, and the
-- database's `gen_random_uuid()` and `now()` are the arguments `id` and `now`.
pub mod Sql
pub mod Tenants
pub mod Users
pub mod Billing
pub mod Views
pub mod Histories
