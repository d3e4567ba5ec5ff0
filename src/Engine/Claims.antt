-- ===== src/Engine/Claims.antt =====
-- crates/lazybones-engine/src/scheduler/tick.rs: the tests and the budget of the claim pass.
pub mod Bounds
use Prim.Native.Nat.{◌%◌}
use lazybones.Prelude.{
  ℕ, ◌+◌, ◌-◌, Bool, true, false, not, ◌&&◌, ◌||◌, String, Option, none, some, List, [], ◌∷◌,
  if◌then◌else◌, is_some, is_none, nat_eq, length, contains, keep, take, map,
}
use lazybones.Store.Task.Status
use lazybones.Store.Task.Status.{Status, status_eq}
use lazybones.Store.Task.WorktreeMode
use lazybones.Store.Task.WorktreeMode.{mode_eq}
use lazybones.Store.Task.Model.{Task}
use lazybones.Store.Run.Lifecycle
use lazybones.Store.Run.Lifecycle.{lifecycle_eq}
use lazybones.Store.Run.Model.{Run}
use lazybones.Engine.Config.{EngineConfig}
use lazybones.Engine.Effective.{EffectiveGit}

-- `is_multiple_of` is asked only of a divisor that is not 0.
unfoldable pub reverse_sync_due : (every tick_count : ℕ) → Bool
reverse_sync_due every tick_count = not (nat_eq every 0) && nat_eq (tick_count % every) 0

-- A reused tree with a baseline keeps it.
unfoldable pub resolve_base_commit :
    (reused : Bool) → (existing head_now : Option String) → Option String
resolve_base_commit reused existing head_now =
    if reused && is_some existing then existing else head_now

-- The tasks with a status, in the list of all.
abbrev pub with_status : Status → List Task → List Task
with_status s ts = keep (λ t. status_eq t.status s) ts

-- The slots that the running and gating tasks leave, by the answers of the two queries.
unfoldable pub budget : EngineConfig → (running gating : List Task) → ℕ
budget cfg running gating = cfg.concurrency - (length running + length gating)

-- A task of a run that is stopped or was not started is skipped.
unfoldable pub is_skipped : Option Run → Bool
is_skipped none = false
is_skipped (some r) = not (lifecycle_eq r.lifecycle Lifecycle.active) || is_none r.started_at

abbrev pub is_busy : List String → Option String → Bool
is_busy busy none = false
is_busy busy (some run_id) = contains busy run_id

-- A task on a shared tree waits while its run is in the set.
unfoldable pub is_held_back : EffectiveGit → Task → (busy_shared_runs : List String) → Bool
is_held_back eff task busy =
    mode_eq eff.worktree_mode WorktreeMode.shared && is_busy busy task.run_id

-- The set before the first claim: the runs of the running tasks.
unfoldable pub busy_of : List Task → List String
busy_of [] = []
busy_of (t ∷ running) = elim t.run_id [ none ↦ busy_of running | some r ↦ r ∷ busy_of running ]

-- crates/lazybones-store/src/handle.rs: the runs whose tasks are not promoted, of all runs.
unfoldable pub unpromotable_run_ids : List Run → List String
unfolding lifecycle_eq
unpromotable_run_ids runs =
    map (λ r. r.id)
      (keep (λ r. lifecycle_eq r.lifecycle Lifecycle.stopped || is_none r.started_at) runs)
