-- ===== src/Store/Verbs.antt =====
-- crates/lazybones-store/src/task: the verbs that read and write one task, and `append_event`.
pub mod Post
pub mod Moves
pub mod Reimport
use lazybones.Prelude.{
  ℕ, Bool, String, Option, none, some, List, Outcome, ok, err, if◌then◌else◌, option_map, is_some,
  unwrap_or, saturating_succ,
}
use lazybones.Store.Error.{operation, illegal_transition, task_not_found, task_exists}
use lazybones.Store.Surreal.{Surreal, Verb, return, throw, ◌>>=◌, ◌>>◌, call, expect}
use lazybones.Store.Event.{Event, NewEvent, into_event}
use lazybones.Store.Task.Status.{Status, pending, as_str}
use lazybones.Store.Task.WorktreeMode.{WorktreeMode}
use lazybones.Store.Task.RetryStrategy.{RetryStrategy}
use lazybones.Store.Task.Model.{Task}
use lazybones.Store.Task.Row.{from_task, into_task}
use lazybones.Store.Task.Transition.{Transition, target, is_legal, apply_side_data}

-- The authored fields of an edit. Of an optional policy field the outer option says whether the
-- edit has it.
pub record TaskEdit : Type 0 where
  pub title : String
  pub spec : String
  pub deps : List String
  pub owns : List String
  pub tool : Option String
  pub model : Option String
  pub effort : Option String
  pub worktree_mode : WorktreeMode
  pub auto_trust_agent_folder : Option (Option Bool)
  pub auto_retry : Option (Option RetryStrategy)
  pub max_retries : Option ℕ
  pub issue_close_on_done : Option Bool

-- The stored task with the authored fields of an edit; a policy field that it leaves out stays.
unfoldable pub edited : Task → TaskEdit → Task
edited stored edit = record stored {
  title = edit.title;
  spec = edit.spec;
  deps = edit.deps;
  owns = edit.owns;
  tool = edit.tool;
  model = edit.model;
  effort = edit.effort;
  worktree_mode = edit.worktree_mode;
  auto_trust_agent_folder = unwrap_or edit.auto_trust_agent_folder stored.auto_trust_agent_folder;
  auto_retry = unwrap_or edit.auto_retry stored.auto_retry;
  max_retries = unwrap_or edit.max_retries stored.max_retries;
  issue_close_on_done = unwrap_or edit.issue_close_on_done stored.issue_close_on_done;
}

-- The stored task with the issue fields of another.
unfoldable pub linked : Task → Task → Task
linked stored task = record stored {
  issue_url = task.issue_url;
  issue_close_on_done = task.issue_close_on_done;
  issue_synced_state = task.issue_synced_state;
}

-- The imported task with the fields that the code copies from the stored one.
unfoldable pub reimported : Task → Task → Task
reimported task prev = record task {
  status = prev.status;
  session = prev.session;
  worktree = prev.worktree;
  branch = prev.branch;
  commit = prev.commit;
  reason = prev.reason;
  issue_url = prev.issue_url;
  issue_close_on_done = prev.issue_close_on_done;
  issue_synced_state = prev.issue_synced_state;
}

-- What an import writes over the task that may be stored.
abbrev pub import_over : Option Task → Task → Task
import_over none task = task
import_over (some prev) task = reimported task prev

-- The task with another policy; no cap leaves the cap.
unfoldable pub repoliced : Task → Option RetryStrategy → Option ℕ → Task
repoliced task strategy cap = record task {
  auto_retry = strategy;
  max_retries = unwrap_or cap task.max_retries;
}

-- The task with one more retry spent.
unfoldable pub bumped : Task → Task
bumped task = record task { retry_count = saturating_succ task.retry_count }

-- The record of a task that starts anew.
unfoldable pub cleared : Task → Task
cleared task = record task {
  status = pending;
  session = none;
  worktree = none;
  branch = none;
  commit = none;
  reason = none;
  heartbeat = none;
  started_at = none;
  finished_at = none;
  failed_at = none;
  retry_count = 0;
}

module _ (s : Surreal) where
  open s use {
    Db, now, select_task, update_task_row, upsert_task_row, create_task_row, merge_heartbeat,
    create_event,
  }

  unfoldable pub get_task : String → Verb Db (Option Task)
  get_task id = do row ← call (select_task id); return (option_map into_task row)

  -- `Datetime::now().to_string()`
  abbrev clock : Verb Db String
  clock d = (ok (now d), d)

  -- Strict creation: a task whose id is taken is refused.
  unfoldable pub create_task : Task → Verb Db Task
  create_task task = do
    existing ← call (select_task task.id)
    if is_some existing then throw (task_exists task.id) else (do
      written ← call (create_task_row task.id (from_task task))
      expect (option_map into_task written) (task_not_found task.id))

  unfoldable pub append_event : (run task from to actor : String) → Verb Db Event
  append_event run task from to actor = do
    at ← clock
    let event : NewEvent = record {
      run = run;
      task = task;
      from = from;
      to = to;
      actor = actor;
      at = at;
    }
    written ← call (create_event event)
    expect (option_map into_event written) (operation "event insert returned no row")

  -- `db.update(..).content(TaskRow::from_task(..))`, and the task that it answers.
  unfoldable pub write : String → Task → Verb Db Task
  write id task = do
    written ← call (update_task_row id (from_task task))
    expect (option_map into_task written) (task_not_found id)

  -- `db.upsert(..).content(TaskRow::from_task(..))`, and the task that it answers.
  unfoldable pub overwrite : String → Task → Verb Db Task
  overwrite id task = do
    written ← call (upsert_task_row id (from_task task))
    expect (option_map into_task written) (task_not_found id)

  -- `get_task(db, id).await?.ok_or_else(|| TaskNotFound)?`
  unfoldable pub required : String → Verb Db Task
  unfolding get_task
  required id = do found ← get_task id; expect found (task_not_found id)

  -- The end of both status verbs: the write of the changed task, and its line in the log.
  unfoldable pub write_and_log : String → Task → (from to actor : String) → Verb Db (Task × Event)
  unfolding write append_event
  write_and_log id task from to actor = do
    written ← write id task
    event ← append_event written.run id from to actor
    return (written, event)

  -- A legal move: the side data is folded in at the time that the clock shows.
  unfoldable pub make_move : String → Transition → (actor : String) → Task → Verb Db (Task × Event)
  unfolding write_and_log
  make_move id transition actor task = do
    at ← clock
    write_and_log id (apply_side_data (record task { status = target transition }) transition at)
        (as_str task.status) (as_str (target transition)) actor

  -- Validates the move, writes the task with its side data, and appends the event.
  unfoldable pub transition_task : String → Transition → (actor : String) → Verb Db (Task × Event)
  unfolding required make_move
  transition_task id transition actor = do
    task ← required id
    if is_legal task.status transition
        then make_move id transition actor task
        else throw (illegal_transition id (as_str task.status) (as_str (target transition)))

  -- Forces a task back to `pending`, and drops what its last run left.
  unfoldable pub reset_task : String → (actor : String) → Verb Db (Task × Event)
  unfolding required write_and_log
  reset_task id actor = do
    task ← required id
    write_and_log id (cleared task) (as_str task.status) (as_str pending) actor

  -- Sets or clears the policy.
  unfoldable pub set_retry_policy : String → Option RetryStrategy → Option ℕ → Verb Db Task
  unfolding required write
  set_retry_policy id strategy cap = do task ← required id; write id (repoliced task strategy cap)

  unfoldable pub bump_retry_count : String → Verb Db Task
  unfolding required write
  bump_retry_count id = do task ← required id; write id (bumped task)

  -- Inserts the task if there is none, or writes the import over the stored one.
  unfoldable pub upsert_task : Task → Verb Db Task
  unfolding get_task overwrite
  upsert_task task = do existing ← get_task task.id; overwrite task.id (import_over existing task)

  unfoldable pub set_issue_link : Task → Verb Db Task
  unfolding required overwrite
  set_issue_link task = do stored ← required task.id; overwrite task.id (linked stored task)

  unfoldable pub update_task : String → TaskEdit → Verb Db Task
  unfolding required overwrite
  update_task id edit = do stored ← required id; overwrite id (edited stored edit)

  -- Stamps a task with the current time by a merge of the one field.
  unfoldable pub record_heartbeat : String → Verb Db Bool
  record_heartbeat id = do
    at ← clock
    updated ← call (merge_heartbeat id at)
    return (is_some updated)
