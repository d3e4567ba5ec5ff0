-- ===== src/Store/Run/Model.antt =====
-- crates/lazybones-store/src/run/model.rs: the workflow document. A `u64` is a number.
use lazybones.Prelude.{ℕ, Bool, String, Option, none, List}
use lazybones.Store.Task.WorktreeMode.{WorktreeMode}
use lazybones.Store.Run.Lifecycle.{Lifecycle, active}
use lazybones.Store.Run.MergeMode.{MergeMode}

pub record Workspace : Type 0 where
  pub repo : String
  pub base_branch : Option String
  pub branch_prefix : Option String
  pub worktree_mode : WorktreeMode
  pub worktree_name : Option String
  pub tool : Option String
  pub model : Option String
  pub effort : Option String
  pub gate : Option (List String)
  pub merge : Option MergeMode
  pub auto_pr : Option Bool

pub record Run : Type 0 where
  pub id : String
  pub title : String
  pub workspace : Workspace
  pub lifecycle : Lifecycle
  pub created_at : String
  pub started_at : Option String
  pub hcom_log_cursor : Option ℕ  -- u64
  pub pr_url : Option String

-- A freshly created, active workflow with no tasks yet.
unfoldable pub new : (id title : String) → Workspace → (now : String) → Run
new i t ws now = record {
  id = i;
  title = t;
  workspace = ws;
  lifecycle = active;
  created_at = now;
  started_at = none;
  hcom_log_cursor = none;
  pr_url = none;
}
