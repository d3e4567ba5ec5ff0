-- ===== src/Auth.antt =====
-- crates/lazybones-auth, and the test of crates/lazybones-api/src/extract.rs that uses it.
pub mod Capability
pub mod Session
mod Tests
