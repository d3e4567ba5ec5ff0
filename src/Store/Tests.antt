-- ===== src/Store/Tests.antt =====
-- The theorems on the store at concrete inputs.
pub mod Memory
pub mod Tasks
pub mod Runs
pub mod Handles
