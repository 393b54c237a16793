-- ===== src/Container.antt =====
-- src/infrastructure/container.py: the state that `ServiceContainer` wires together, the outside
-- world that its services call, and their methods as actions with exceptions.
mod State
mod Outside
mod Actions
pub use State.*
pub use Outside.*
unfoldable pub use Actions.*
pub mod Follows
pub mod Holds
pub mod Yields
