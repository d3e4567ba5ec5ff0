-- ===== src/Store/RoundTrip.antt =====
-- What the rows of tasks and runs keep of the documents that they persist.
use lazybones.Prelude.{ltb, if◌then◌else◌, ℕ, ◌≡◌, refl, Option, none, some, arith, option_map}
use lazybones.Store.Task.Status
use lazybones.Store.Task.Status.{Status}
use lazybones.Store.Task.WorktreeMode
use lazybones.Store.Task.WorktreeMode.{WorktreeMode}
use lazybones.Store.Task.RetryStrategy
use lazybones.Store.Task.RetryStrategy.{RetryStrategy}
use lazybones.Store.Task.IssueSyncState
use lazybones.Store.Task.IssueSyncState.{IssueSyncState}
use lazybones.Store.Task.Model.{Task}
use lazybones.Store.Task.Row.{from_task, into_task, parse_status}
use lazybones.Store.Run.Lifecycle
use lazybones.Store.Run.Lifecycle.{Lifecycle}
use lazybones.Store.Run.MergeMode
use lazybones.Store.Run.MergeMode.{MergeMode}
use lazybones.Store.Run.Model.{Run}
use lazybones.Store.Run.Row.{from_run, into_run, to_i64, to_u64, i64_bound, and_then}

parse_status-as_str : (s : Status) → parse_status (Status.as_str s) ≡ s
unfolding parse_status Status.as_str
parse_status-as_str Status.pending = refl
parse_status-as_str _ = refl

mode_parse-as_str : (m : WorktreeMode) → WorktreeMode.parse (some (WorktreeMode.as_str m)) ≡ m
unfolding WorktreeMode.parse WorktreeMode.as_str
mode_parse-as_str WorktreeMode.new = refl
mode_parse-as_str _ = refl

override_parse-as_str :
    (m : Option WorktreeMode)
    → option_map (λ s. WorktreeMode.parse (some s)) (option_map WorktreeMode.as_str m) ≡ m
override_parse-as_str none = refl
override_parse-as_str (some m) = λ i. some (mode_parse-as_str m i)

strategy_parse-as_str :
    (s : Option RetryStrategy) → RetryStrategy.parse (option_map RetryStrategy.as_str s) ≡ s
unfolding RetryStrategy.parse RetryStrategy.as_str
strategy_parse-as_str none = refl
strategy_parse-as_str (some RetryStrategy.long_term) = refl
strategy_parse-as_str (some RetryStrategy.quick) = refl

sync_parse-as_str :
    (s : Option IssueSyncState) → IssueSyncState.parse (option_map IssueSyncState.as_str s) ≡ s
unfolding IssueSyncState.parse IssueSyncState.as_str
sync_parse-as_str none = refl
sync_parse-as_str (some IssueSyncState.open_) = refl
sync_parse-as_str (some IssueSyncState.closed) = refl

-- A task that is written to its row and read back is the same task, in every field.
pub into_task-from_task : (t : Task) → into_task (from_task t) ≡ t
unfolding into_task from_task
into_task-from_task t = λ i. record t {
  status = parse_status-as_str t.status i;
  worktree_mode = mode_parse-as_str t.worktree_mode i;
  worktree_mode_override = override_parse-as_str t.worktree_mode_override i;
  auto_retry = strategy_parse-as_str t.auto_retry i;
  issue_synced_state = sync_parse-as_str t.issue_synced_state i;
}

lifecycle_parse-as_str : (l : Lifecycle) → Lifecycle.parse (some (Lifecycle.as_str l)) ≡ l
unfolding Lifecycle.parse Lifecycle.as_str
lifecycle_parse-as_str Lifecycle.active = refl
lifecycle_parse-as_str Lifecycle.stopped = refl

merge_parse-as_str :
    (m : Option MergeMode)
    → option_map (λ s. MergeMode.parse (some s)) (option_map MergeMode.as_str m) ≡ m
unfolding MergeMode.parse MergeMode.as_str
merge_parse-as_str none = refl
merge_parse-as_str (some MergeMode.fast_forward) = refl
merge_parse-as_str (some _) = refl

-- What the `i64` column keeps of a cursor.
abbrev pub kept_cursor : Option ℕ → Option ℕ
kept_cursor none = none
kept_cursor (some c) = if ltb c i64_bound then some c else none

cursor_parts : (c : Option ℕ) → and_then (and_then c to_i64) to_u64 ≡ kept_cursor c
unfolding to_i64 to_u64
cursor_parts none = refl
cursor_parts (some c) = ground arith

-- A run that is written to its row and read back is the same run in every field, but that a cursor
-- of 2^63 or more is lost.
pub into_run-from_run :
    (r : Run) → into_run (from_run r) ≡ record r { hcom_log_cursor = kept_cursor r.hcom_log_cursor }
unfolding into_run from_run
into_run-from_run r = λ i. record r {
  workspace = record (r.workspace) {
    worktree_mode = mode_parse-as_str r.workspace.worktree_mode i;
    merge = merge_parse-as_str r.workspace.merge i;
  };
  lifecycle = lifecycle_parse-as_str r.lifecycle i;
  hcom_log_cursor = cursor_parts r.hcom_log_cursor i;
}
