-- ===== src/Ext.antt =====
-- crates/lazybones-ext: the host of the WASM extensions.
pub mod Breaker
pub mod Cycle
pub mod Capability
pub mod Manifest
pub mod Registry
mod Tests
