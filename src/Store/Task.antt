-- ===== src/Store/Task.antt =====
-- crates/lazybones-store/src/task: the task document and its verbs.
pub mod Status
pub mod WorktreeMode
pub mod RetryStrategy
pub mod IssueSyncState
pub mod Model
pub mod Row
pub mod Transition
