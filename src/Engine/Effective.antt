-- ===== src/Engine/Effective.antt =====
-- crates/lazybones-engine/src/scheduler/effective.rs: the settings that a claim of a task uses.
pub mod Layers
use lazybones.Prelude.{
  ◌≡◌, refl, ◌≢◌, ◌⊎◌, inl, inr, Bool, true, false, not, String, Option, none, some, List, [],
  arith, if◌then◌else◌, unwrap_or, or_else, option_map, is_blank,
}
use lazybones.Store.Task.WorktreeMode
use lazybones.Store.Task.WorktreeMode.{WorktreeMode}
use lazybones.Store.Task.Model.{Task}
use lazybones.Store.Run.MergeMode as Stored
use lazybones.Store.Run.Model.{Run, Workspace}
use lazybones.Engine.Config.{EngineConfig, MergeMode, fast_forward, merge, pr}

pub record EffectiveGit : Type 0 where
  pub repo : String
  pub base_branch : String
  pub branch_prefix : String
  pub worktree_mode : WorktreeMode
  pub worktree_name : Option String
  pub tool : String
  pub model : Option String
  pub effort : Option String
  pub gate : List String
  pub landing : MergeMode
  pub auto_trust_agent_folder : Bool

unfoldable pub map_merge : Stored.MergeMode → MergeMode
map_merge Stored.fast_forward = fast_forward
map_merge Stored.merge = merge
map_merge Stored.pr = pr

-- A shared worktree lands as one pull request.
unfoldable pub merge_for : WorktreeMode → MergeMode → MergeMode
merge_for WorktreeMode.shared resolved = pr
merge_for _ resolved = resolved

-- `.filter(|s| !s.trim().is_empty())`
abbrev pub unless_blank : Option String → Option String
unless_blank none = none
unless_blank (some s) = if is_blank s then none else some s

unfoldable pub resolve : Task → Option Run → EngineConfig → EffectiveGit
unfolding map_merge merge_for
resolve task none cfg = record {
  repo = cfg.target_repo;
  base_branch = cfg.base_branch;
  branch_prefix = cfg.branch_prefix;
  worktree_mode = task.worktree_mode;
  worktree_name = none;
  tool = unwrap_or task.tool cfg.agent_tool;
  model = or_else task.model cfg.agent_model;
  effort = or_else task.effort cfg.agent_effort;
  gate = cfg.gate;
  landing = cfg.merge;
  auto_trust_agent_folder = unwrap_or task.auto_trust_agent_folder cfg.auto_trust_agent_folder;
}
resolve task (some run) cfg =
    let ws = run.workspace in
    let worktree_mode = unwrap_or task.worktree_mode_override ws.worktree_mode in
    record {
      repo = ws.repo;
      base_branch = unwrap_or ws.base_branch cfg.base_branch;
      branch_prefix = unwrap_or ws.branch_prefix cfg.branch_prefix;
      worktree_mode = worktree_mode;
      worktree_name = unless_blank ws.worktree_name;
      tool = unwrap_or (or_else task.tool ws.tool) cfg.agent_tool;
      model = or_else (or_else task.model ws.model) cfg.agent_model;
      effort = or_else (or_else task.effort ws.effort) cfg.agent_effort;
      gate = unwrap_or ws.gate cfg.gate;
      landing = merge_for worktree_mode (unwrap_or (option_map map_merge ws.merge) cfg.merge);
      auto_trust_agent_folder = unwrap_or task.auto_trust_agent_folder cfg.auto_trust_agent_folder;
    }
