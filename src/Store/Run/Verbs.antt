-- ===== src/Store/Run/Verbs.antt =====
-- crates/lazybones-store/src/run: the verbs that read and write one run.
pub mod Post
pub mod Changes
use lazybones.Prelude.{
  ℕ, Bool, false, String, Option, none, some, if◌then◌else◌, option_map, is_some, leb, nat_eq,
}
use lazybones.Store.Error.{run_not_found, run_exists}
use lazybones.Store.Surreal.{Surreal, Verb, return, throw, ◌>>=◌, ◌>>◌, call, expect}
use lazybones.Store.Run.Lifecycle.{Lifecycle, active, stopped}
use lazybones.Store.Run.Model.{Run, Workspace}
use lazybones.Store.Run.Row.{from_run, into_run}

unfoldable pub with_lifecycle : Lifecycle → Run → Run
with_lifecycle lifecycle run = record run { lifecycle = lifecycle }

-- The run before it was started.
unfoldable pub unstarted : Run → Run
unstarted run = record run { started_at = none; lifecycle = active; pr_url = none }

unfoldable pub with_pr_url : String → Run → Run
with_pr_url url run = record run { pr_url = some url }

-- Another workspace on the same repository.
unfoldable pub with_workspace : Workspace → Run → Run
with_workspace workspace run = record run {
  workspace = record workspace { repo = run.workspace.repo };
}

-- `map_or(cursor, |cur| cur.max(cursor))`
unfoldable pub furthest : Option ℕ → ℕ → ℕ
furthest none cursor = cursor
furthest (some cur) cursor = if leb cur cursor then cursor else cur

-- `run.hcom_log_cursor != Some(next)`, negated.
abbrev pub is_cursor : Option ℕ → ℕ → Bool
is_cursor none next = false
is_cursor (some cur) next = nat_eq cur next

module _ (s : Surreal) where
  open s use {Db, select_run, update_run_row, create_run_row}

  unfoldable pub get_run : String → Verb Db (Option Run)
  get_run id = do row ← call (select_run id); return (option_map into_run row)

  -- `get_run(db, id).await?.ok_or_else(|| RunNotFound)?`
  unfoldable pub required_run : String → Verb Db Run
  unfolding get_run
  required_run id = do found ← get_run id; expect found (run_not_found id)

  -- `db.update(..).content(RunRow::from_run(..))`, and the run that it answers.
  unfoldable pub write_run : String → Run → Verb Db Run
  write_run id run = do
    written ← call (update_run_row id (from_run run))
    expect (option_map into_run written) (run_not_found id)

  -- Strict creation: a run whose id is taken is refused.
  unfoldable pub create_run : Run → Verb Db Run
  create_run run = do
    existing ← call (select_run run.id)
    if is_some existing then throw (run_exists run.id) else (do
      written ← call (create_run_row run.id (from_run run))
      expect (option_map into_run written) (run_not_found run.id))

  unfoldable pub set_lifecycle : String → Lifecycle → Verb Db Run
  unfolding required_run write_run
  set_lifecycle id lifecycle = do run ← required_run id; write_run id (with_lifecycle lifecycle run)

  unfoldable pub stop_run : String → Verb Db Run
  unfolding set_lifecycle
  stop_run id = set_lifecycle id stopped

  unfoldable pub resume_run : String → Verb Db Run
  unfolding set_lifecycle
  resume_run id = set_lifecycle id active

  -- The first start stamps the run, and a later one leaves it.
  unfoldable pub mark_started : String → (now : String) → Verb Db Run
  unfolding required_run write_run
  mark_started id now = do
    run ← required_run id
    if is_some run.started_at
        then return run
        else write_run id (record run { started_at = some now })

  unfoldable pub clear_started : String → Verb Db Run
  unfolding required_run write_run
  clear_started id = do run ← required_run id; write_run id (unstarted run)

  unfoldable pub set_pr_url : String → (url : String) → Verb Db Run
  unfolding required_run write_run
  set_pr_url id url = do run ← required_run id; write_run id (with_pr_url url run)

  unfoldable pub update_workspace : String → Workspace → Verb Db Run
  unfolding required_run write_run
  update_workspace id workspace = do
    run ← required_run id
    write_run id (with_workspace workspace run)

  -- The cursor moves to the larger of the two, and an unchanged one is not written.
  unfoldable pub advance_hcom_cursor : String → (cursor : ℕ) → Verb Db Run
  unfolding required_run write_run furthest
  advance_hcom_cursor id cursor = do
    run ← required_run id
    let next = furthest run.hcom_log_cursor cursor
    if is_cursor run.hcom_log_cursor next
        then return run
        else write_run id (record run { hcom_log_cursor = some next })
