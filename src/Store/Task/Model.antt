-- ===== src/Store/Task/Model.antt =====
-- crates/lazybones-store/src/task/model.rs: the task document. A time is its RFC3339 text, and a
-- `u32` a number.
use lazybones.Prelude.{ℕ, Bool, false, String, Option, none, List}
use lazybones.Store.Task.Status.{Status, pending}
use lazybones.Store.Task.WorktreeMode
use lazybones.Store.Task.WorktreeMode.{WorktreeMode}
use lazybones.Store.Task.RetryStrategy.{RetryStrategy}
use lazybones.Store.Task.IssueSyncState.{IssueSyncState}

abbrev pub default_max_retries : ℕ
default_max_retries = 2

pub record Task : Type 0 where
  pub id : String
  pub run : String
  pub title : String
  pub spec : String
  pub status : Status
  pub deps : List String
  pub owns : List String
  pub tool : Option String
  pub model : Option String
  pub effort : Option String
  pub auto_trust_agent_folder : Option Bool
  pub worktree_mode : WorktreeMode
  pub session : Option String
  pub worktree : Option String
  pub branch : Option String
  pub base_commit : Option String
  pub commit : Option String
  pub reason : Option String
  pub heartbeat : Option String
  pub started_at : Option String
  pub finished_at : Option String
  pub failed_at : Option String
  pub run_id : Option String
  pub template_id : Option String
  pub reuse_from : Option String
  pub worktree_mode_override : Option WorktreeMode
  pub auto_retry : Option RetryStrategy
  pub max_retries : ℕ  -- u32
  pub retry_count : ℕ  -- u32
  pub issue_url : Option String
  pub issue_close_on_done : Bool
  pub issue_synced_state : Option IssueSyncState

-- A freshly imported task: `pending`, no claim state.
unfoldable pub seed :
    (id run title spec : String) → List String → List String → Option String → Task
unfolding WorktreeMode.default
seed i r t s ds os tl = record {
  id = i;
  run = r;
  title = t;
  spec = s;
  status = pending;
  deps = ds;
  owns = os;
  tool = tl;
  model = none;
  effort = none;
  auto_trust_agent_folder = none;
  worktree_mode = WorktreeMode.default;
  session = none;
  worktree = none;
  branch = none;
  base_commit = none;
  commit = none;
  reason = none;
  heartbeat = none;
  started_at = none;
  finished_at = none;
  failed_at = none;
  run_id = none;
  template_id = none;
  reuse_from = none;
  worktree_mode_override = none;
  auto_retry = none;
  max_retries = default_max_retries;
  retry_count = 0;
  issue_url = none;
  issue_close_on_done = false;
  issue_synced_state = none;
}
