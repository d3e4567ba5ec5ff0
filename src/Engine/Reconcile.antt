-- ===== src/Engine/Reconcile.antt =====
-- crates/lazybones-engine/src/scheduler/reclaim.rs: the pass that blocks or reclaims the tasks whose
-- agents are gone, and ends the agents whose tasks are over.
pub mod Justified
use Prim.Native.String.{◌++◌ as ◌<>◌}
use lazybones.Prelude.{
  String, Bool, true, not, Option, some, none, List, [], ◌∷◌, Outcome, ok, err, if◌then◌else◌,
  is_some, ◌||◌,
}
use lazybones.Store.Error.{StoreError}
use lazybones.Store.Task.Status.{Status}
use lazybones.Store.Task.Model.{Task}
use lazybones.Store.Task.Transition as Intent
use lazybones.Store.Run.Lifecycle
use lazybones.Store.Run.Lifecycle.{lifecycle_eq}
use lazybones.Store.Run.Model.{Run}
use lazybones.Engine.Config.{EngineConfig}
use lazybones.Engine.Commands.{hcom_list, hcom_kill_tag, list_tasks, list_runs, transition}
use lazybones.Engine.Program.{Program, perform, stop, for_each, ◌>>=◌, ◌>>◌}
use lazybones.Engine.Block.{block}
use lazybones.Engine.Reclaim.{
  HcomAgent, Clock, Decision, blocks, reclaims, leaves, decide, has_live_agent,
}

abbrev pub actor : String
actor = "scheduler:reclaim"

-- `Option<bool> != Some(true)`
abbrev pub is_off : Option Bool → Bool
is_off none = true
is_off (some b) = not b

-- A summarizer that the run has no use for.
unfoldable pub is_illegitimate : Run → Bool
unfolding lifecycle_eq
is_illegitimate r =
    lifecycle_eq r.lifecycle Lifecycle.stopped || is_some r.pr_url || is_off r.workspace.auto_pr

-- A kill whose error is logged.
abbrev pub kill : (tag : String) → Program (Unit {0})
kill tag = perform (hcom_kill_tag tag) >> stop

abbrev pub reap_summarizer : (live : List HcomAgent) → Run → Program (Unit {0})
unfolding has_live_agent is_illegitimate
reap_summarizer live r =
    if not (has_live_agent (r.id <> "-autopr") live)
    then stop
    else if is_illegitimate r
    then kill (r.id <> "-autopr")
    else stop

abbrev pub reap_task : (live : List HcomAgent) → Task → Program (Unit {0})
unfolding has_live_agent
reap_task live task = if not (has_live_agent task.id live) then stop else kill task.id

-- A query that fails leaves its part of the pass out.
abbrev pub for_answer :
    {A : Type 0} → (A → Program (Unit {0})) → Outcome StoreError (List A) → Program (Unit {0})
for_answer body (ok xs) = for_each xs body
for_answer body (err e) = stop

abbrev pub for_tasks : (Task → Program (Unit {0})) → Status → Program (Unit {0})
for_tasks body status = perform (list_tasks status) >>= for_answer body

abbrev reap_live : (live : List HcomAgent) → Program (Unit {0})
reap_live [] = stop
reap_live (a ∷ live) = do
  runs ← perform list_runs
  for_answer (reap_summarizer (a ∷ live)) runs
  for_each (Status.done ∷ Status.blocked ∷ []) (for_tasks (reap_task (a ∷ live)))

unfoldable pub reap_finished_agents : (live : List HcomAgent) → Program (Unit {0})
reap_finished_agents live = reap_live live

module _ (to_lowercase : String → String) (clock : Clock) where
  -- What the decision on a task in flight makes of it.
  abbrev pub act_on : Task → Decision → Program (Unit {0})
  unfolding block
  act_on task (blocks reason) = kill task.id >> block to_lowercase task reason actor
  act_on task reclaims = perform (transition task.id Intent.reclaim actor) >> stop
  act_on task leaves = stop

  abbrev pub reconcile_task : EngineConfig → (live : List HcomAgent) → Task → Program (Unit {0})
  unfolding decide
  reconcile_task cfg live task =
      act_on task (decide to_lowercase clock live cfg.stale_after_secs task)

  abbrev pub reconcile_with : EngineConfig → Outcome String (List HcomAgent) → Program (Unit {0})
  unfolding reap_finished_agents
  reconcile_with cfg (err e) = stop
  reconcile_with cfg (ok live) = do
    for_each (Status.running ∷ Status.gating ∷ []) (for_tasks (reconcile_task cfg live))
    reap_finished_agents live

  unfoldable pub reconcile : EngineConfig → Program (Unit {0})
  reconcile cfg = perform hcom_list >>= reconcile_with cfg
