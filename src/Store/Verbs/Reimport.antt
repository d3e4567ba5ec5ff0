-- ===== src/Store/Verbs/Reimport.antt =====
-- crates/lazybones-store/src/task/upsert.rs: what a re-import of the workfile leaves of a task.
use lazybones.Prelude.{String, Option, none, some, List, ◌≡◌, refl, ◌∙◌, ◌⊎◌, arith, option_map, ap}
use lazybones.Store.Error.{task_not_found}
use lazybones.Store.Surreal.{Surreal, IsDocumented, Contents, call, WritesTask, expect}
use lazybones.Store.Task.Status.{running, gating, done}
use lazybones.Store.Task.Model.{Task, seed}
use lazybones.Store.Task.Row.{TaskRow, from_task, into_task}
use lazybones.Store.RoundTrip.{into_task-from_task}
use lazybones.Store.Verbs.{get_task, overwrite, reimported, import_over, upsert_task}
use lazybones.Store.Verbs.Post.{Post, Post_mono, bind-Post, call-Post, Failed, get_task-Post}
use lazybones.Store.Verbs.Moves.{with_task}
use lazybones.Store.Lifecycle.{IsConsistent}

-- The import over the task that may be stored: the status, the session, worktree, branch, commit and
-- reason, and the link to the issue are those of the stored task, and all else is imported.
abbrev pub imported : (stored : Option Task) (task : Task) → Task
imported none task = task
imported (some prev) task = record {
  id = task.id;
  run = task.run;
  title = task.title;
  spec = task.spec;
  status = prev.status;
  deps = task.deps;
  owns = task.owns;
  tool = task.tool;
  model = task.model;
  effort = task.effort;
  auto_trust_agent_folder = task.auto_trust_agent_folder;
  worktree_mode = task.worktree_mode;
  session = prev.session;
  worktree = prev.worktree;
  branch = prev.branch;
  base_commit = task.base_commit;
  commit = prev.commit;
  reason = prev.reason;
  heartbeat = task.heartbeat;
  started_at = task.started_at;
  finished_at = task.finished_at;
  failed_at = task.failed_at;
  run_id = task.run_id;
  template_id = task.template_id;
  reuse_from = task.reuse_from;
  worktree_mode_override = task.worktree_mode_override;
  auto_retry = task.auto_retry;
  max_retries = task.max_retries;
  retry_count = task.retry_count;
  issue_url = prev.issue_url;
  issue_close_on_done = prev.issue_close_on_done;
  issue_synced_state = prev.issue_synced_state;
}

import_over-imported :
    (stored : Option Task) (task : Task) → import_over stored task ≡ imported stored task
unfolding reimported
import_over-imported none task = refl
import_over-imported (some prev) task = refl

module _ (s : Surreal) (doc : IsDocumented s) where
  overwritten-Post :
      (id : String) (t : Task) (c : Contents) (o : Option TaskRow) (d : s.Db)
      → WritesTask c id (from_task t) o (s.contents d)
      → Post s.contents
          (expect (option_map into_task o) (task_not_found id) d)
          (λ t' c'. (t' ≡ t) × (c' ≡ with_task c id t))
          (λ e c'. c' ≡ c)
  overwritten-Post id t c none d h = h
  overwritten-Post id t c (some r) d h = (ap into_task h.0 ∙ into_task-from_task t, h.1)

  pub overwrite-Post :
      (id : String) (t : Task) (d : s.Db)
      → Post s.contents
          (overwrite s id t d)
          (λ t' c. (t' ≡ t) × (c ≡ with_task (s.contents d) id t))
          (λ e c. c ≡ s.contents d)
  unfolding overwrite
  overwrite-Post id t d =
      bind-Post s.contents (call (s.upsert_task_row id (from_task t)))
        (λ written. expect (option_map into_task written) (task_not_found id)) d
        (WritesTask (s.contents d) id (from_task t)) (Failed (s.contents d)) _ _
        (call-Post s.contents (s.upsert_task_row id (from_task t)) d _
          (doc.upsert_task_law id (from_task t) d))
        (λ o d' h. overwritten-Post id t (s.contents d) o d' h) (λ e c h. h.2)

  -- A re-import answers and writes the imported task where there is none of its id, and else the
  -- import with the status, session, worktree, branch, commit, reason and issue link of the stored
  -- task. Where it fails nothing changes.
  pub upsert_task-Post :
      (task : Task) (d : s.Db)
      → Post s.contents
          (upsert_task s task d)
          (λ t c.
            (t ≡ imported (option_map into_task ((s.contents d).tasks task.id)) task)
            × (c ≡ with_task (s.contents d) task.id t))
          (λ e c. c ≡ s.contents d)
  unfolding upsert_task
  upsert_task-Post task d =
      bind-Post s.contents (get_task s task.id)
        (λ existing. overwrite s task.id (import_over existing task)) d
        (λ o c. (o ≡ option_map into_task ((s.contents d).tasks task.id)) × (c ≡ s.contents d))
        (Failed (s.contents d)) _ _ (get_task-Post s doc task.id d)
        (λ o d' h.
          Post_mono s.contents (overwrite s task.id (import_over o task) d') _ _ _ _
            (overwrite-Post task.id (import_over o task) d')
            (λ t c g. (
              g.0 ∙ ap (λ x. import_over x task) h.0 ∙ import_over-imported _ task,
              rw h.1 at (rw (← g.0) at (g.1)),
            ))
            (λ e c g. g ∙ h.1))
        (λ e c h. h.2)

-- A re-import of a workfile keeps the status, the claim and the issue of a stored task, and loses
-- its baseline, its heartbeat, its times, its retry policy with the retries spent, and its links to
-- a run and to a template.
pub reimported-seed :
    (i r t s : String) (ds os : List String) (tl : Option String) (prev : Task)
    → let u = reimported (seed i r t s ds os tl) prev in
      (u.status ≡ prev.status)
      × (u.session ≡ prev.session)
      × (u.worktree ≡ prev.worktree)
      × (u.branch ≡ prev.branch)
      × (u.issue_url ≡ prev.issue_url)
      × (u.base_commit ≡ none)
      × (u.heartbeat ≡ none)
      × (u.started_at ≡ none)
      × (u.finished_at ≡ none)
      × (u.failed_at ≡ none)
      × (u.auto_retry ≡ none)
      × (u.retry_count ≡ 0)
      × (u.run_id ≡ none)
      × (u.template_id ≡ none)
unfolding reimported seed
reimported-seed i r t s ds os tl prev = ground arith

-- So a task that is running, gating or done is not consistent after a re-import of the workfile.
pub reimported-not_IsConsistent :
    (i r t s : String) (ds os : List String) (tl : Option String) (prev : Task)
    → (prev.status ≡ running) ⊎ ((prev.status ≡ gating) ⊎ (prev.status ≡ done))
    → ¬ IsConsistent (reimported (seed i r t s ds os tl) prev)
unfolding reimported seed
reimported-not_IsConsistent i r t s ds os tl prev h k = ground arith
