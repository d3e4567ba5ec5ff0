-- ===== src/Store/Run/Row.antt =====
-- crates/lazybones-store/src/run/row.rs: the persisted shape of a run. The cursor column is an
-- `i64`, so a `u64` beyond its range is not stored.
use lazybones.Prelude.{
  ℕ, Bool, String, Option, none, some, List, if◌then◌else◌, ltb, unwrap_or, option_map,
}
use lazybones.Store.Task.WorktreeMode
use lazybones.Store.Task.Row.{RecordId, RecordIdKey, text, other}
use lazybones.Store.Run.Lifecycle
use lazybones.Store.Run.MergeMode
use lazybones.Store.Run.Model.{Run}

-- An `i64`: `minus n` is -(n + 1).
pub data Int64 : Type 0 where
  plus minus : ℕ → Int64

abbrev pub i64_bound : ℕ
i64_bound = 9223372036854775808

-- `i64::try_from` of a `u64`, and `u64::try_from` of an `i64`, without the error.
unfoldable pub to_i64 : ℕ → Option Int64
to_i64 c = if ltb c i64_bound then some (plus c) else none

unfoldable pub to_u64 : Int64 → Option ℕ
to_u64 (plus n) = some n
to_u64 (minus n) = none

abbrev pub and_then {ℓ κ} : {A : Type ℓ} {B : Type κ} → Option A → (A → Option B) → Option B
and_then none f = none
and_then (some a) f = f a

abbrev pub run_table : String
run_table = "run"

pub record WorkspaceRow : Type 0 where
  pub repo : String
  pub base_branch : Option String
  pub branch_prefix : Option String
  pub worktree_mode : Option String
  pub worktree_name : Option String
  pub tool : Option String
  pub model : Option String
  pub effort : Option String
  pub gate : Option (List String)
  pub merge : Option String
  pub auto_pr : Option Bool

pub record RunRow : Type 0 where
  pub id : RecordId
  pub title : String
  pub workspace : WorkspaceRow
  pub lifecycle : Option String
  pub created_at : Option String
  pub started_at : Option String
  pub hcom_log_cursor : Option Int64
  pub pr_url : Option String

unfoldable pub from_run : Run → RunRow
unfolding WorktreeMode.as_str MergeMode.as_str Lifecycle.as_str to_i64
from_run r = record {
  id = record { table = run_table; key = text r.id };
  title = r.title;
  workspace = record {
    repo = r.workspace.repo;
    base_branch = r.workspace.base_branch;
    branch_prefix = r.workspace.branch_prefix;
    worktree_mode = some (WorktreeMode.as_str r.workspace.worktree_mode);
    worktree_name = r.workspace.worktree_name;
    tool = r.workspace.tool;
    model = r.workspace.model;
    effort = r.workspace.effort;
    gate = r.workspace.gate;
    merge = option_map MergeMode.as_str r.workspace.merge;
    auto_pr = r.workspace.auto_pr;
  };
  lifecycle = some (Lifecycle.as_str r.lifecycle);
  created_at = some r.created_at;
  started_at = r.started_at;
  hcom_log_cursor = and_then r.hcom_log_cursor to_i64;
  pr_url = r.pr_url;
}

-- The key of a record id as text.
unfoldable pub run_key : RecordIdKey → String
run_key (text s) = s
run_key (other sql) = sql

unfoldable pub into_run : RunRow → Run
unfolding run_key WorktreeMode.parse MergeMode.parse Lifecycle.parse to_u64
into_run r = record {
  id = run_key r.id.key;
  title = r.title;
  workspace = record {
    repo = r.workspace.repo;
    base_branch = r.workspace.base_branch;
    branch_prefix = r.workspace.branch_prefix;
    worktree_mode = WorktreeMode.parse r.workspace.worktree_mode;
    worktree_name = r.workspace.worktree_name;
    tool = r.workspace.tool;
    model = r.workspace.model;
    effort = r.workspace.effort;
    gate = r.workspace.gate;
    merge = option_map (λ s. MergeMode.parse (some s)) r.workspace.merge;
    auto_pr = r.workspace.auto_pr;
  };
  lifecycle = Lifecycle.parse r.lifecycle;
  created_at = unwrap_or r.created_at "";
  started_at = r.started_at;
  hcom_log_cursor = and_then r.hcom_log_cursor to_u64;
  pr_url = r.pr_url;
}
