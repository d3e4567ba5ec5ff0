-- ===== src/Engine/Config.antt =====
-- crates/lazybones-engine/src/config.rs: the configuration that the scheduler reads.
use lazybones.Prelude.{ℕ, Bool, String, Option, List, Map}

pub data MergeMode : Type 0 where
  fast_forward merge pr : MergeMode

-- A `PathBuf` is its text.
pub record EngineConfig : Type 0 where
  pub target_repo : String
  pub base_branch : String
  pub remote : String
  pub gate : List String
  pub concurrency : ℕ  -- usize
  pub worktrees : Bool
  pub worktree_root : String
  pub branch_prefix : String
  pub merge : MergeMode
  pub agent_tool : String
  pub agent_model : Option String
  pub agent_effort : Option String
  pub permission_flags : Map (List String)
  pub auto_trust_agent_folder : Bool
  pub stale_after_secs : ℕ  -- u64
  pub tick_secs : ℕ  -- u64
  pub issue_sync_every_n_ticks : ℕ  -- u64
