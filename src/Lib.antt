-- ===== src/Lib.antt =====
-- The EU multi-tenant cloud platform: tenants with a lifecycle and a schema each, users who sign in
-- with passwords and tokens, and the duties of the GDPR, over one hash-chained audit log.
--
-- Parts, and how they correspond to the code (paths from the root of the repository):
--   * Domain: the models and errors of src/domain/models and src/domain/exceptions, and the
--     transition table of src/domain/services/tenant_lifecycle.py. Domain/Lifecycle/Order reads the
--     table as a relation of statuses.
--   * Adapters: the in-memory repositories of src/infrastructure/adapters.py, one file each, as
--     dictionaries in insertion order.
--   * Container: the state that one ServiceContainer (src/infrastructure/container.py) owns, the
--     world outside, and methods as actions. An action takes the container to a result or an
--     exception and the container that is left; what was written before an exception stays.
--     Follows, Holds and Yields are the rules by which actions are proved to keep a relation of
--     containers, to end in a postcondition, and to end without an exception.
--   * Services: Auditing is the `_create_audit_entry` that the services share; Tenants, Auth and
--     Gdpr are the methods of src/application/services/tenant_service.py, auth_service.py and
--     gdpr_service.py. Respect is the interface between them and the theorems on histories: a
--     relation that writes elsewhere and audit entries keep. Registry is what is always true of the
--     stored tenants, and how they may change. Billing is billing_service.py, and
--     CostCalculator the calculator that it calls, src/domain/services/cost_calculator.py.
--   * Tasks: the Celery tasks of src/application/tasks/tenant_tasks.py, gdpr_tasks.py and
--     billing_tasks.py.
--   * Platform: the calls that the routes and the workers make, in any order, and what every such
--     history keeps.
--   * Pagination: src/application/schemas/pagination.py.
--   * Access: src/infrastructure/auth/rbac.py.
--   * Erasure: the handler of src/infrastructure/gdpr/erasure_handler.py.
--   * AuditLog: AuditRepository of src/infrastructure/database/repository.py.
--   * TenantContext: the middleware of src/presentation/middleware/tenant_context.py.
--   * SchemaManager: src/infrastructure/database/tenant_schema_manager.py, without the asynchronous
--     twin, which repeats it.
--   * Retention: src/infrastructure/gdpr/retention_engine.py.
--   * Repository: TenantRepository, UserRepository and BillingRepository of
--     src/infrastructure/database/repository.py over the tables of models.py. Sql is what they use of
--     SQL, Views the tables as maps of rows that forget their order, and Histories the writes in any
--     order.
--   * Migrations: src/infrastructure/database/migration_runner.py, and migrations/env.py beside it.
--   * Jwt: src/infrastructure/auth/jwt_handler.py.
--   * Pricing: src/infrastructure/cost/pricing_engine.py and anomaly_detector.py.
--   * Presentation: the routes of src/presentation/api/v1 over the services, with the models of
--     schemas.py and the handlers of src/presentation/main.py. Answers, Failures and Exports are what
--     clients get, and Slugs relates the slugs that they may give to the names of schemas.
--   * Metrics: src/infrastructure/cost/metrics_collector.py.
--   * Exporter: src/infrastructure/gdpr/data_exporter.py.
--   * Prelude and Text: Boolean tests, lists over native numbers, dictionaries, totals per
--     key, f-strings.
--   * Tests: concrete worlds and containers, and the theorems at them.
--
-- Numbers are natural numbers: Python's integers do not wrap around. A UUID is its 128-bit integer,
-- a time its microseconds since the epoch. All loops run over lists but that of
-- Metrics.generate_series, whose fuel Metrics/Series shows to be enough. What the services call and
-- do not implement is the record World: clocks, uuid4, SHA-256, argon2-cffi, python-jose, the schema
-- manager, the stores of tenant records. Its answers are numbered, so that a clock or a random source
-- may answer differently each time, and a port may raise.
--
-- Decimal values are not negative and exact: a number and how many of its digits stand behind the
-- point. Python's context of 28 digits is left out: where a number would be longer, Python rounds it
-- or quantize raises, and the theorems on amounts do not speak of it.
-- Floats are parameters, as are calendars and the division of a projection.
--
-- Not modelled: engines and sessions, the password handler, the wiring of the application, logging.
-- Of SQL, foreign keys and the width of columns are left out. Messages of exceptions that no code
-- reads are reduced to what they are made from.
pub mod Prelude
pub mod Text
pub mod Domain
pub mod Adapters
pub mod Container
pub mod Pagination
pub mod Services
pub mod Tasks
pub mod Platform
pub mod Access
pub mod Erasure
pub mod Exporter
pub mod AuditLog
pub mod Jwt
pub mod Presentation
pub mod Pricing
pub mod TenantContext
pub mod Repository
pub mod SchemaManager
pub mod Metrics
pub mod Migrations
pub mod Retention
pub mod Tests
