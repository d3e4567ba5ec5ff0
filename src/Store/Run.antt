-- ===== src/Store/Run.antt =====
-- crates/lazybones-store/src/run: workflows, their rows, their verbs and their derived state.
pub mod Lifecycle
pub mod MergeMode
pub mod Model
pub mod Row
pub mod Derived
pub mod Verbs
