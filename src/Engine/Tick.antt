-- ===== src/Engine/Tick.antt =====
-- crates/lazybones-engine/src/scheduler/tick.rs: the passes of a tick that promote, resume and claim
-- tasks.
pub mod Footprint
pub mod Room
pub mod Starts
pub mod Guards
use Prim.Native.String.{◌++◌ as ◌<>◌}
use lazybones.Prelude.{
  ℕ, ◌+◌, ◌-◌, String, Bool, true, false, not, ◌&&◌, Option, some, none, List, [], ◌∷◌, Outcome, ok,
  err, if◌then◌else◌, unwrap_or, is_some, take, length, nat_eq, Map, insert, ◌==◌, option_map,
}
use lazybones.Store.Error.{StoreError, to_string}
use lazybones.Store.Chat.{ChatMessage}
use lazybones.Store.Task.Status
use lazybones.Store.Task.Status.{Status}
use lazybones.Store.Task.WorktreeMode
use lazybones.Store.Task.WorktreeMode.{mode_eq}
use lazybones.Store.Task.Model.{Task}
use lazybones.Store.Task.Transition as Intent
use lazybones.Store.Run.Model.{Run}
use lazybones.Engine.Config.{EngineConfig}
use lazybones.Engine.Effective.{EffectiveGit, resolve}
use lazybones.Engine.Fair.{fair_order}
use lazybones.Engine.Claims.{budget, is_skipped, is_held_back, busy_of, resolve_base_commit}
use lazybones.Engine.Commands.{
  git, GitOut, hcom_spawn, AgentLaunch, list_tasks, get_task, get_run, chat_history, newly_ready,
  unpromotable_run_ids, transition, is_driving,
}
use lazybones.Engine.Program.{Program, perform, return, stop, for_each, fold, ◌>>=◌, ◌>>◌}
use lazybones.Engine.Block.{block}
use lazybones.Engine.Worktree.{Provisioned, provision}
use lazybones.Engine.Prompt.{compose}
use lazybones.Engine.Finish.{spawn_resume}

abbrev pub actor : String
actor = "scheduler:tick"

-- `.unwrap_or_default()`
abbrev pub or_empty : {A : Type 0} → Outcome StoreError (List A) → List A
or_empty (ok xs) = xs
or_empty (err e) = []

abbrev pub promote_one : (id : String) → Program (Unit {0})
promote_one id = perform (transition id Intent.make_ready actor) >> stop

abbrev pub promote_all : Outcome StoreError (List String) → Program (Unit {0})
promote_all (err e) = stop
promote_all (ok ready) = for_each ready promote_one

unfoldable pub promote : Program (Unit {0})
promote = do
  stopped ← perform unpromotable_run_ids
  ready ← perform (newly_ready (or_empty stopped))
  promote_all ready

-- The runs that were read in this pass.
abbrev pub Cache : Type 0
Cache = Map (Option Run)

abbrev pub or_none : {A : Type 0} → Outcome StoreError (Option A) → Option A
or_none (ok a) = a
or_none (err e) = none

abbrev pub read_run :
    (run_id : String) → Cache → (cached : Option (Option Run)) → Program (Option Run × Cache)
read_run run_id cache (some cached) = return (cached, cache)
read_run run_id cache none = do
  answer ← perform (get_run run_id)
  return (or_none answer, insert run_id (or_none answer) cache)

abbrev pub run_of : (run_id : Option String) → Cache → Program (Option Run × Cache)
run_of none cache = return (none, cache)
run_of (some run_id) cache = read_run run_id cache (cache run_id)

unfoldable pub run_for : Task → Cache → Program (Option Run × Cache)
run_for task cache = run_of task.run_id cache

abbrev pub no_runs : Cache
no_runs run_id = none

abbrev pub reattach_one : EngineConfig → Cache → Task → Program Cache
unfolding run_for resolve spawn_resume
reattach_one cfg cache task = do
  driven ← perform (is_driving task.id)
  if driven then return cache else do
    found ← run_for task cache
    spawn_resume (resolve task found.0 cfg) task
    return found.1

abbrev pub reattach_all : EngineConfig → Cache → Outcome StoreError (List Task) → Program Cache
reattach_all cfg cache (err e) = return cache
reattach_all cfg cache (ok tasks) = fold (reattach_one cfg) cache tasks

abbrev pub reattach_status : EngineConfig → Cache → Status → Program Cache
reattach_status cfg cache status = perform (list_tasks status) >>= reattach_all cfg cache

unfoldable pub reattach_orphans : EngineConfig → Program (Unit {0})
reattach_orphans cfg =
    fold (reattach_status cfg) no_runs (Status.running ∷ Status.gating ∷ []) >> stop

abbrev pub source_tree :
    (source_id : String) → Outcome StoreError (Option Task) → Outcome String (Option String)
unfolding to_string
source_tree source_id (ok (some source)) = elim source.worktree [
  | some path ↦ ok (some path)
  | none ↦
      err ("reuse_from task `" <> source_id <> "` has no worktree yet (not claimed / torn down)")
]
source_tree source_id (ok none) = err ("reuse_from task `" <> source_id <> "` does not exist")
source_tree source_id (err e) =
    err ("reuse_from lookup of `" <> source_id <> "` failed: " <> to_string e)

abbrev pub reuse_of : (reuse_from : Option String) → Program (Outcome String (Option String))
reuse_of none = return (ok none)
reuse_of (some source_id) = do
  source ← perform (get_task source_id)
  return (source_tree source_id source)

-- The tree that a task takes over, or the reason to block it.
unfoldable pub resolve_reuse : Task → EffectiveGit → Program (Outcome String (Option String))
unfolding mode_eq
resolve_reuse task eff =
    if not (mode_eq eff.worktree_mode WorktreeMode.reuse)
    then return (ok none)
    else reuse_of task.reuse_from

-- The answers of the two queries, the second asked after the first succeeds.
abbrev pub budget_with :
    EngineConfig → List Task → Outcome StoreError (List Task) → Outcome StoreError ℕ
unfolding budget
budget_with cfg running (ok gating) = ok (budget cfg running gating)
budget_with cfg running (err e) = err e

abbrev pub budget_after :
    EngineConfig → Outcome StoreError (List Task) → Program (Outcome StoreError ℕ)
budget_after cfg (err e) = return (err e)
budget_after cfg (ok running) = do
  gating ← perform (list_tasks Status.gating)
  return (budget_with cfg running gating)

unfoldable pub query_budget : EngineConfig → Program (Outcome StoreError ℕ)
query_budget cfg = perform (list_tasks Status.running) >>= budget_after cfg

-- `.ok().filter(|o| o.ok).map(|o| o.stdout).filter(|s| !s.is_empty())`
abbrev pub head_of : Outcome String GitOut → Option String
head_of (err e) = none
head_of (ok out) = if out.ok && not (out.stdout == "") then some out.stdout else none

-- What the pass keeps from one task to the next.
pub record Claiming : Type 0 where
  pub runs : Cache
  pub busy_shared_runs : List String

-- `HashSet::insert`, where a task has a run.
abbrev pub mark : (run_id : Option String) → List String → List String
mark none busy = busy
mark (some r) busy = r ∷ busy

module _ (to_lowercase : String → String) (cfg : EngineConfig) where
  -- The task is blocked, and the pass goes on.
  abbrev pub give_up : Task → (reason : String) → Claiming → Program Claiming
  unfolding block
  give_up task reason st = block to_lowercase task reason actor >> return st

  abbrev pub after_claim : EffectiveGit → Claiming → Outcome StoreError Task → Program Claiming
  unfolding spawn_resume
  after_claim eff st (err e) = return st
  after_claim eff st (ok claimed) =
      spawn_resume eff claimed
      >> return (record st { busy_shared_runs = mark claimed.run_id st.busy_shared_runs })

  abbrev pub after_spawn :
      EffectiveGit → Task → Provisioned → Claiming → Outcome String String → Program Claiming
  unfolding resolve_base_commit
  after_spawn eff task tree st (err e) = give_up task ("agent spawn failed: " <> e) st
  after_spawn eff task tree st (ok session) = do
    head ← perform (git tree.worktree ("rev-parse" ∷ "HEAD" ∷ []))
    answer ← perform (
        transition task.id
          (Intent.claim session tree.worktree tree.branch
            (resolve_base_commit tree.reused task.base_commit (head_of head)))
          actor)
    after_claim eff st answer

  abbrev pub launch_for : EffectiveGit → AgentLaunch
  launch_for eff = record {
    model = eff.model;
    effort = eff.effort;
    permission_flags = unwrap_or (cfg.permission_flags eff.tool) [];
  }

  abbrev pub after_provision :
      EffectiveGit → Task → Claiming → Outcome String Provisioned → Program Claiming
  unfolding compose
  after_provision eff task st (err e) = give_up task ("worktree provisioning failed: " <> e) st
  after_provision eff task st (ok tree) = do
    history ← perform (chat_history task.id)
    let prompt : String = compose task tree.worktree tree.branch cfg.remote (or_empty history)
    session ← perform (hcom_spawn eff.tool task.id tree.worktree prompt (launch_for eff))
    after_spawn eff task tree st session

  abbrev pub after_reuse :
      EffectiveGit → Task → Claiming → Outcome String (Option String) → Program Claiming
  unfolding provision
  after_reuse eff task st (err reason) = give_up task reason st
  after_reuse eff task st (ok reuse_path) =
      provision task eff cfg reuse_path >>= after_provision eff task st

  abbrev pub claim_in : Task → Claiming → Option Run → Program Claiming
  unfolding is_skipped is_held_back resolve resolve_reuse
  claim_in task st run =
      if is_skipped run
      then return st
      else if is_held_back (resolve task run cfg) task st.busy_shared_runs
      then return st
      else resolve_reuse task (resolve task run cfg) >>= after_reuse (resolve task run cfg) task st

  -- The body of the loop over the tasks within the budget.
  unfoldable pub claim_one : Claiming → Task → Program Claiming
  unfolding run_for
  claim_one st task = do
    found ← run_for task st.runs
    claim_in task (record st { runs = found.1 }) found.0

  abbrev pub claim_within : ℕ → (ordered : Option (List Task)) → Program (Unit {0})
  unfolding busy_of claim_one
  claim_within slots none = stop
  claim_within slots (some ordered) = do
    running ← perform (list_tasks Status.running)
    let start : Claiming = record { runs = no_runs; busy_shared_runs = busy_of (or_empty running) }
    fold claim_one start (take slots ordered) >> stop

  abbrev pub claim_ready : ℕ → Outcome StoreError (List Task) → Program (Unit {0})
  unfolding fair_order
  claim_ready slots (err e) = stop
  claim_ready slots (ok ready) = claim_within slots (fair_order ready)

  abbrev pub claim_budget : Outcome StoreError ℕ → Program (Unit {0})
  claim_budget (err e) = stop
  claim_budget (ok slots) =
      if nat_eq slots 0 then stop else perform (list_tasks Status.ready) >>= claim_ready slots

  unfoldable pub claim_and_spawn : Program (Unit {0})
  unfolding query_budget
  claim_and_spawn = query_budget cfg >>= claim_budget
