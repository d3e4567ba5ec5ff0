-- ===== src/Store/Tests/Runs.antt =====
-- Runs and their derived state.
use lazybones.Prelude.{none, some, [], ◌∷◌, ◌≡◌, ◌↔◌, Exists}
use lazybones.Store.Task.Status
use lazybones.Store.Task.WorktreeMode
use lazybones.Store.Run.Lifecycle
use lazybones.Store.Run.MergeMode
use lazybones.Store.Run.Model.{Run, Workspace}
use lazybones.Store.Run.Row.{from_run, into_run}
use lazybones.Store.Run.Derived
use lazybones.Store.Run.Derived.{derived_state, derived_state-eq-needs_attention}
use lazybones.Store.RoundTrip.{into_run-from_run, kept_cursor}
use lazybones.Store.Surreal.{Contents}
use lazybones.Store.Verbs.Post.{Post}
use lazybones.Store.Run.Verbs.Post.{UntouchedRun, with_run}
use lazybones.Store.Run.Verbs.Changes.{perform, advance, Commanded, perform-Post}
use lazybones.Store.Tests.Memory.{memory, memory-IsDocumented, no_rows}
use lazybones.Store.Tests.Tasks.{fix_task}

abbrev pub workspace : Workspace
workspace = record {
  repo = "NubeDev/lazybones";
  base_branch = some "main";
  branch_prefix = none;
  worktree_mode = WorktreeMode.shared;
  worktree_name = none;
  tool = none;
  model = none;
  effort = none;
  gate = some ("cargo test" ∷ []);
  merge = some MergeMode.pr;
  auto_pr = none;
}

-- A run with a cursor beyond the range of an `i64`.
abbrev pub far_run : Run
far_run = record {
  id = "r1";
  title = "One";
  workspace = workspace;
  lifecycle = Lifecycle.active;
  created_at = "2026-01-01T00:00:00Z";
  started_at = none;
  hcom_log_cursor = some 9223372036854775808;
  pr_url = none;
}

into_run-from_run_example :
    into_run (from_run far_run)
    ≡ record far_run { hcom_log_cursor = kept_cursor far_run.hcom_log_cursor }
into_run-from_run_example = into_run-from_run far_run

derived_state-eq-needs_attention_example :
    (derived_state Lifecycle.active (fix_task ∷ []) ≡ Derived.needs_attention)
    ↔ Exists (λ t. t.status ≡ Status.blocked) (fix_task ∷ [])
derived_state-eq-needs_attention_example = derived_state-eq-needs_attention (fix_task ∷ [])

abbrev pub one_run : Contents
one_run = with_run no_rows "r1" far_run

perform-Post_example :
    Post memory.contents
      (perform memory "r1" (advance 7) one_run)
      (Commanded one_run "r1" (advance 7))
      (UntouchedRun one_run "r1")
perform-Post_example = perform-Post memory memory-IsDocumented "r1" (advance 7) one_run
