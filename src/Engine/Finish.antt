-- ===== src/Engine/Finish.antt =====
-- crates/lazybones-engine/src/scheduler/finish.rs: a claimed task is driven to `done` or `blocked`.
pub mod Green
pub mod Work
pub mod Done
use Prim.Native.String.{◌++◌ as ◌<>◌}
use lazybones.Prelude.{
  ℕ, suc, String, Bool, true, false, not, Option, none, some, List, [], ◌∷◌, Outcome, ok, err,
  if◌then◌else◌, unwrap_or, length, keep, nat_eq, is_none,
}
use lazybones.Store.Error.{StoreError}
use lazybones.Store.Task.Status
use lazybones.Store.Task.Status.{status_eq}
use lazybones.Store.Task.Model.{Task}
use lazybones.Store.Task.Transition as Intent
use lazybones.Engine.Config.{EngineConfig}
use lazybones.Engine.Effective.{EffectiveGit}
use lazybones.Engine.Commands.{
  list_run_tasks, transition, gate_check, GateDecision, pass, block as refuse, close_on_done,
  reserve, release, spawn_drive,
}
use lazybones.Engine.Program.{Program, perform, return, stop, ◌>>=◌, ◌>>◌}
use lazybones.Engine.Block.{block}
use lazybones.Engine.Landing.{commit_worktree, head_advanced, branch_has_commits, push_branch, land}
use lazybones.Engine.Gate as Gate
use lazybones.Engine.Gate.{GateOutcome, green, red}
use lazybones.Engine.Gate.Preflight.{Preflight, fits, fixed, unfixable, check}
use lazybones.Engine.Worktree.{teardown}
use lazybones.Engine.Await.{Signal, done, blocked, agent_done, timeout, await_signal}

abbrev pub actor : String
actor = "scheduler:finish"

-- The place of the task among the tasks of its run that are done, and the number of all.
abbrev place_among : Outcome StoreError (List Task) → Option (ℕ × ℕ)
place_among (err e) = none
place_among (ok tasks) =
    if nat_eq (length tasks) 0
    then none
    else some (suc (length (keep (λ t. status_eq t.status Status.done) tasks)), length tasks)

abbrev pub progress_in : Option String → Program (Option (ℕ × ℕ))
progress_in none = return none
progress_in (some run_id) = do tasks ← perform (list_run_tasks run_id); return (place_among tasks)

unfoldable pub workflow_progress : Task → Program (Option (ℕ × ℕ))
workflow_progress task = progress_in task.run_id

-- `.unwrap_or(true)`
abbrev pub or_true : Outcome String Bool → Bool
or_true (ok b) = b
or_true (err e) = true

-- The reason to block a task whose tree was clean, if it is empty.
abbrev pub by_branch : (worktree : String) → EffectiveGit → Task → Program (Option String)
by_branch worktree eff task = if not (is_none task.base_commit) then return none else do
  has_commits ← branch_has_commits worktree eff.base_branch (unwrap_or task.branch "")
  if or_true has_commits
      then return none
      else return (some "task produced no changes to commit (empty task)")

abbrev pub reason_if_clean :
    (worktree : String)
    → EffectiveGit
    → Task
    → (advanced : Outcome String Bool) → Program (Option String)
unfolding branch_has_commits
reason_if_clean worktree eff task advanced =
    if not (or_true advanced)
    then return (some "task produced no commit of its own (empty task)")
    else by_branch worktree eff task

-- The reason to block the task after the commit of its work, if there is one.
unfoldable pub reason_after_commit :
    (worktree : String)
    → EffectiveGit
    → Task
    → Outcome String (Option String)
    → Program (Option String)
unfolding head_advanced
reason_after_commit worktree eff task (ok (some sha)) = return none
reason_after_commit worktree eff task (ok none) = do
  advanced ← head_advanced worktree task.base_commit
  reason_if_clean worktree eff task advanced
reason_after_commit worktree eff task (err e) = return (some ("auto-commit failed: " <> e))

-- The push after the commit, whose error is logged.
abbrev pub back_up : (worktree remote : String) → (branch : Option String) → Program (Unit {0})
unfolding push_branch
back_up worktree remote none = stop
back_up worktree remote (some branch) = push_branch worktree remote branch >> stop

-- A teardown whose error is logged.
abbrev pub close : EngineConfig → EffectiveGit → Task → Outcome StoreError Task → Program (Unit {0})
unfolding teardown
close cfg eff task (err e) = stop
close cfg eff task (ok finished) = do perform (close_on_done task); teardown task eff cfg; stop

module _ (to_lowercase : String → String) where
  abbrev pub finish_landed :
      EngineConfig → EffectiveGit → Task → Outcome String String → Program (Unit {0})
  unfolding block
  finish_landed cfg eff task (err e) = block to_lowercase task ("merge failed: " <> e) actor
  finish_landed cfg eff task (ok commit) = do
    answer ← perform (transition task.id (Intent.finish commit) actor)
    close cfg eff task answer

  abbrev pub land_unless :
      EngineConfig
      → EffectiveGit
      → Task
      → (worktree : String) → (reason : Option String) → Program (Unit {0})
  unfolding block land
  land_unless cfg eff task worktree (some reason) = block to_lowercase task reason actor
  land_unless cfg eff task worktree none = do
    back_up worktree cfg.remote task.branch
    landed ← land task eff cfg
    finish_landed cfg eff task landed

  abbrev pub after_check :
      EngineConfig → EffectiveGit → Task → (worktree : String) → GateDecision → Program (Unit {0})
  unfolding block workflow_progress commit_worktree reason_after_commit
  after_check cfg eff task worktree (refuse reason) =
      block to_lowercase task ("gate-check extension blocked the land: " <> reason) actor
  after_check cfg eff task worktree pass = do
    progress ← workflow_progress task
    committed ← commit_worktree worktree task progress
    reason ← reason_after_commit worktree eff task committed
    land_unless cfg eff task worktree reason

  abbrev pub after_gate :
      EngineConfig
      → EffectiveGit
      → Task
      → (worktree : String) → Outcome String GateOutcome
      → Program (Unit {0})
  unfolding block
  after_gate cfg eff task worktree (err e) =
      block to_lowercase task ("gate could not run: " <> e) actor
  after_gate cfg eff task worktree (ok (red reason)) = block to_lowercase task reason actor
  after_gate cfg eff task worktree (ok green) = do
    decision ← perform (gate_check task worktree)
    after_check cfg eff task worktree decision

  abbrev pub after_preflight :
      EngineConfig → EffectiveGit → Task → (worktree : String) → Preflight → Program (Unit {0})
  unfolding block Gate.run
  after_preflight cfg eff task worktree fits =
      Gate.run worktree eff.gate >>= after_gate cfg eff task worktree
  after_preflight cfg eff task worktree (fixed gate note) =
      Gate.run worktree gate >>= after_gate cfg eff task worktree
  after_preflight cfg eff task worktree (unfixable reason) =
      block to_lowercase task ("gate misconfigured: " <> reason) actor

  unfoldable pub gate_and_land : EngineConfig → EffectiveGit → Task → Program (Unit {0})
  unfolding check
  gate_and_land cfg eff task = do
    let worktree : String = unwrap_or task.worktree ""
    preflight ← check worktree eff.gate
    after_preflight cfg eff task worktree preflight

  abbrev pub after_transition :
      EngineConfig → EffectiveGit → Task → Outcome StoreError Task → Program (Unit {0})
  unfolding gate_and_land
  after_transition cfg eff task (err e) = stop
  after_transition cfg eff task (ok gating) = gate_and_land cfg eff task

  abbrev pub gate_work : EngineConfig → EffectiveGit → Task → Program (Unit {0})
  gate_work cfg eff task =
      perform (transition task.id Intent.gate actor) >>= after_transition cfg eff task

  -- The loop of the model always returns a signal or an error.
  abbrev pub on_signal :
      EngineConfig → EffectiveGit → Task → Option (Outcome String Signal) → Program (Unit {0})
  unfolding block
  on_signal cfg eff task none = stop
  on_signal cfg eff task (some (err e)) = block to_lowercase task ("await failed: " <> e) actor
  on_signal cfg eff task (some (ok done)) = gate_work cfg eff task
  on_signal cfg eff task (some (ok agent_done)) = gate_work cfg eff task
  on_signal cfg eff task (some (ok (blocked reason))) = block to_lowercase task reason actor
  on_signal cfg eff task (some (ok timeout)) =
      block to_lowercase task "agent timed out with no DONE signal" actor

  unfoldable pub drive : EngineConfig → EffectiveGit → Task → Program (Unit {0})
  unfolding await_signal
  drive cfg eff task = await_signal task.id >>= on_signal cfg eff task

  unfoldable pub resume : EngineConfig → EffectiveGit → Task → Program (Unit {0})
  unfolding gate_and_land drive status_eq
  resume cfg eff task =
      if status_eq task.status Status.gating then gate_and_land cfg eff task else drive cfg eff task

  -- What the spawned task does; the guard frees the place in the set at its end.
  unfoldable pub driven : EngineConfig → EffectiveGit → Task → Program (Unit {0})
  unfolding resume
  driven cfg eff task = resume cfg eff task >> perform (release task.id)

-- A task is driven once: its place in the set is taken before the loop is spawned.
unfoldable pub spawn_resume : EffectiveGit → Task → Program (Unit {0})
spawn_resume eff task = do
  inserted ← perform (reserve task.id)
  if inserted then perform (spawn_drive eff task) else stop
