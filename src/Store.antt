-- ===== src/Store.antt =====
-- crates/lazybones-store: the durable store of tasks and runs.
pub mod Error
pub mod Task
pub mod Event
pub mod Chat
pub mod Run
pub mod RoundTrip
pub mod Surreal
pub mod Verbs
pub mod Lifecycle
pub mod Edges
pub mod Handle
mod Tests
