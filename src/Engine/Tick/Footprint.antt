-- ===== src/Engine/Tick/Footprint.antt =====
-- The commands of the steps of a claim, for classes of commands that have them.
use lazybones.Prelude.{String, Option, none, some, Outcome, ok, err, by_test, not, ◌≡◌, refl}
use lazybones.Store.Error.{StoreError}
use lazybones.Store.Task.WorktreeMode
use lazybones.Store.Task.WorktreeMode.{mode_eq}
use lazybones.Store.Task.Model.{Task}
use lazybones.Store.Run.Model.{Run}
use lazybones.Engine.Config.{EngineConfig}
use lazybones.Engine.Effective.{EffectiveGit}
use lazybones.Engine.Commands.{Command, get_run, get_task, reserve, spawn_drive}
use lazybones.Engine.Program.Within.{Within, bind-Within, Within-mono}
use lazybones.Engine.Block.{block}
use lazybones.Engine.Block.Footprint.{IsBlocking, block-Within}
use lazybones.Engine.Finish.{spawn_resume}
use lazybones.Engine.Tick.{
  Cache, Claiming, read_run, run_of, reuse_of, resolve_reuse, give_up, after_claim, actor,
}

-- A class of commands with those of the blocking of a task.
abbrev pub HasBlocking : (id : String) → (Command → Type 0) → Type 0
HasBlocking id K = (c : Command) → IsBlocking id c → K c

module _ (K : Command → Type 0) where
  pub give_up-Within :
      (to_lowercase : String → String) (cfg : EngineConfig) (task : Task) (reason : String)
      (st : Claiming)
      → HasBlocking task.id K
      → Within K (give_up to_lowercase cfg task reason st)
  unfolding give_up
  give_up-Within to_lowercase cfg task reason st has =
      bind-Within K (block to_lowercase task reason actor) _
        (Within-mono (IsBlocking task.id) K has (block to_lowercase task reason actor)
          (block-Within to_lowercase task reason actor))
        (λ _. tt)

  read_run-Within :
      (run_id : String) (cache : Cache) (cached : Option (Option Run))
      → K (get_run run_id)
      → Within K (read_run run_id cache cached)
  read_run-Within run_id cache (some cached) has = tt
  read_run-Within run_id cache none has = (has, λ answer. tt)

  pub run_of-Within :
      (run_id : Option String) (cache : Cache)
      → ((i : String) → K (get_run i))
      → Within K (run_of run_id cache)
  run_of-Within none cache has = tt
  run_of-Within (some run_id) cache has = read_run-Within run_id cache (cache run_id) (has run_id)

  reuse_of-Within :
      (source : Option String) → ((i : String) → K (get_task i)) → Within K (reuse_of source)
  reuse_of-Within none has = tt
  reuse_of-Within (some source) has = (has source, λ answer. tt)

  pub resolve_reuse-Within :
      (task : Task) (eff : EffectiveGit)
      → ((i : String) → K (get_task i))
      → Within K (resolve_reuse task eff)
  unfolding resolve_reuse
  resolve_reuse-Within task eff has =
      by_test (Within K) (not (mode_eq eff.worktree_mode WorktreeMode.reuse)) (λ _. tt)
        (λ _. reuse_of-Within task.reuse_from has)

  pub spawn_resume-Within :
      (eff : EffectiveGit) (task : Task)
      → K (reserve task.id)
      → K (spawn_drive eff task)
      → Within K (spawn_resume eff task)
  unfolding spawn_resume
  spawn_resume-Within eff task has has' =
      (has, λ inserted. by_test (Within K) inserted (λ _. (has', λ x. tt)) (λ _. tt))

  pub after_claim-Within :
      (to_lowercase : String → String) (cfg : EngineConfig) (eff : EffectiveGit) (st : Claiming)
      (answer : Outcome StoreError Task)
      → ((claimed : Task)
          → answer ≡ ok claimed
          → K (reserve claimed.id) × K (spawn_drive eff claimed))
      → Within K (after_claim to_lowercase cfg eff st answer)
  unfolding after_claim
  after_claim-Within to_lowercase cfg eff st (err e) has = tt
  after_claim-Within to_lowercase cfg eff st (ok claimed) has =
      let (has_reserve, has_drive) = has claimed refl in
      bind-Within K (spawn_resume eff claimed) _
        (spawn_resume-Within eff claimed has_reserve has_drive) (λ _. tt)
