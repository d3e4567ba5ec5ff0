-- ===== src/Engine.antt =====
-- crates/lazybones-engine: the scheduler.
pub mod Config
pub mod Fair
pub mod Effective
pub mod Claims
pub mod Reclaim
pub mod Commands
pub mod Program
pub mod FollowUp
pub mod Block
pub mod Landing
pub mod Gate
pub mod Worktree
pub mod Prompt
pub mod Await
pub mod Finish
pub mod Reconcile
pub mod Tick
pub mod Workspace
mod Tests
