-- ===== src/Store/Task/Row.antt =====
-- crates/lazybones-store/src/task/row.rs: the persisted shape of a task. A record id is its table
-- and its key, and a key that is no text is kept as the text that `to_sql` prints.
use lazybones.Prelude.{
  ℕ, Bool, false, String, Option, some, List, ◌==◌, if◌then◌else◌, unwrap_or, option_map,
}
use lazybones.Store.Task.Status
use lazybones.Store.Task.Status.{Status, pending, ready, running, gating, done, blocked}
use lazybones.Store.Task.WorktreeMode
use lazybones.Store.Task.RetryStrategy
use lazybones.Store.Task.IssueSyncState
use lazybones.Store.Task.Model.{Task, default_max_retries}

pub data RecordIdKey : Type 0 where
  text : String → RecordIdKey
  other : (sql : String) → RecordIdKey

pub record RecordId : Type 0 where
  pub table : String
  pub key : RecordIdKey

abbrev pub task_table : String
task_table = "task"

pub record TaskRow : Type 0 where
  pub id : RecordId
  pub run : String
  pub title : String
  pub spec : String
  pub status : String
  pub deps : List String
  pub owns : List String
  pub tool : Option String
  pub model : Option String
  pub effort : Option String
  pub auto_trust_agent_folder : Option Bool
  pub worktree_mode : Option String
  pub session : Option String
  pub worktree : Option String
  pub branch : Option String
  pub base_commit : Option String
  pub commit : Option String
  pub reason : Option String
  pub heartbeat : Option String
  pub started_at : Option String
  pub finished_at : Option String
  pub failed_at : Option String
  pub run_id : Option String
  pub template_id : Option String
  pub reuse_from : Option String
  pub worktree_mode_override : Option String
  pub auto_retry : Option String
  pub max_retries : Option ℕ
  pub retry_count : Option ℕ
  pub issue_url : Option String
  pub issue_close_on_done : Option Bool
  pub issue_synced_state : Option String

unfoldable pub from_task : Task → TaskRow
unfolding Status.as_str WorktreeMode.as_str RetryStrategy.as_str IssueSyncState.as_str
from_task t = record {
  id = record { table = task_table; key = text t.id };
  run = t.run;
  title = t.title;
  spec = t.spec;
  status = Status.as_str t.status;
  deps = t.deps;
  owns = t.owns;
  tool = t.tool;
  model = t.model;
  effort = t.effort;
  auto_trust_agent_folder = t.auto_trust_agent_folder;
  worktree_mode = some (WorktreeMode.as_str t.worktree_mode);
  session = t.session;
  worktree = t.worktree;
  branch = t.branch;
  base_commit = t.base_commit;
  commit = t.commit;
  reason = t.reason;
  heartbeat = t.heartbeat;
  started_at = t.started_at;
  finished_at = t.finished_at;
  failed_at = t.failed_at;
  run_id = t.run_id;
  template_id = t.template_id;
  reuse_from = t.reuse_from;
  worktree_mode_override = option_map WorktreeMode.as_str t.worktree_mode_override;
  auto_retry = option_map RetryStrategy.as_str t.auto_retry;
  max_retries = some t.max_retries;
  retry_count = some t.retry_count;
  issue_url = t.issue_url;
  issue_close_on_done = some t.issue_close_on_done;
  issue_synced_state = option_map IssueSyncState.as_str t.issue_synced_state;
}

-- The key of a record id as text.
unfoldable pub task_key : RecordIdKey → String
task_key (text s) = s
task_key (other sql) = sql

-- An unknown status reads as `pending`.
unfoldable pub parse_status : String → Status
parse_status s =
    if s == "ready"
    then ready
    else if s == "running"
    then running
    else if s == "gating"
    then gating
    else if s == "done"
    then done
    else if s == "blocked"
    then blocked
    else pending

unfoldable pub into_task : TaskRow → Task
unfolding task_key parse_status WorktreeMode.parse RetryStrategy.parse IssueSyncState.parse
into_task r = record {
  id = task_key r.id.key;
  run = r.run;
  title = r.title;
  spec = r.spec;
  status = parse_status r.status;
  deps = r.deps;
  owns = r.owns;
  tool = r.tool;
  model = r.model;
  effort = r.effort;
  auto_trust_agent_folder = r.auto_trust_agent_folder;
  worktree_mode = WorktreeMode.parse r.worktree_mode;
  session = r.session;
  worktree = r.worktree;
  branch = r.branch;
  base_commit = r.base_commit;
  commit = r.commit;
  reason = r.reason;
  heartbeat = r.heartbeat;
  started_at = r.started_at;
  finished_at = r.finished_at;
  failed_at = r.failed_at;
  run_id = r.run_id;
  template_id = r.template_id;
  reuse_from = r.reuse_from;
  worktree_mode_override = option_map (λ s. WorktreeMode.parse (some s)) r.worktree_mode_override;
  auto_retry = RetryStrategy.parse r.auto_retry;
  max_retries = unwrap_or r.max_retries default_max_retries;
  retry_count = unwrap_or r.retry_count 0;
  issue_url = r.issue_url;
  issue_close_on_done = unwrap_or r.issue_close_on_done false;
  issue_synced_state = IssueSyncState.parse r.issue_synced_state;
}
