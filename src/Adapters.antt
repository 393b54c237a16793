-- ===== src/Adapters.antt =====
-- src/infrastructure/adapters.py: the in-memory adapters that the container wires. Each is a
-- record of its attributes with a function for each method; the stores hold the very objects that
-- the services get and mutate, so a mutation is written back under the object's key.
pub mod Tenants
pub mod Users
pub mod AuditEntries
pub mod Tokens
pub mod Jobs
pub mod Policies
pub mod Cache
pub mod Usage
pub mod Costs
pub mod Invoices
pub mod Anomalies
