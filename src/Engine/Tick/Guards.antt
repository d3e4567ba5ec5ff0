-- ===== src/Engine/Tick/Guards.antt =====
-- crates/lazybones-engine/src/scheduler/tick.rs, claim_and_spawn: what one task in turn may do.
pub mod OneAgent
use lazybones.Prelude.{
  String, ◌≡◌, refl, sym, subst, ap, inl, inr, Bool, true, false, Option, none, some, List, Outcome,
  ok, err, by_test, ◌≢◌, ◌⊎◌, All,
}
use lazybones.Store.Task.WorktreeMode
use lazybones.Store.Run.Lifecycle
use lazybones.Store.Error.{StoreError}
use lazybones.Store.Task.Model.{Task}
use lazybones.Store.Task.Transition as Intent
use lazybones.Store.Task.Transition.{Transition}
use lazybones.Store.Run.Model.{Run}
use lazybones.Engine.Config.{EngineConfig}
use lazybones.Engine.Effective.{EffectiveGit, resolve}
use lazybones.Engine.Claims.{is_skipped, is_held_back, resolve_base_commit}
use lazybones.Engine.Commands.{
  Command, Answer, get_run, hcom_spawn, transition, revive_with_guidance, reserve, spawn_drive,
}
use lazybones.Engine.Program.Obeys.{Protocol, Obeys, Obeys_mono, bind-Obeys}
use lazybones.Engine.Program.Within.{Within-mono}
use lazybones.Engine.Program.Quiet.{Quiet, Quiet-Obeys}
use lazybones.Engine.Block.Footprint.{IsBlocking, block-Within}
use lazybones.Engine.Block.{block}
use lazybones.Engine.Program.{Program, return, ◌>>=◌}
use lazybones.Engine.Worktree.{Provisioned, provision}
use lazybones.Engine.Worktree.Footprint.{HasTreeWork, provision-Within}
use lazybones.Engine.Finish.{spawn_resume}
use lazybones.Engine.Tick.{
  Cache, Claiming, read_run, run_of, resolve_reuse, give_up, after_claim, after_spawn,
  after_provision, after_reuse, claim_in, claim_one, mark, or_none, actor, head_of, run_for,
}
use lazybones.Engine.Tick.Footprint.{give_up-Within, resolve_reuse-Within}

-- What is known of the run of the task, the agent that was started, and the task as it was claimed.
pub record Progress : Type 0 where
  pub run : Option (Option Run)
  pub session : Option String
  pub claimed : Option Task

abbrev pub fresh : Option (Option Run) → Progress
fresh run = record { run = run; session = none; claimed = none }

-- The run of the task as the pass has read it before, if it has.
abbrev pub known : (run_id : Option String) → Cache → Option (Option Run)
known none cache = some none
known (some run_id) cache = cache run_id

abbrev pub unclaimed : Task → Claiming → Progress
unclaimed task st = fresh (known task.run_id st.runs)

-- There is no run, or it is active and has a time of its start.
abbrev pub IsActive : Option Run → Type 0
IsActive none = Unit
IsActive (some r) = (r.lifecycle ≡ Lifecycle.active) × ((at : String) × (r.started_at ≡ some at))

-- The run is not one of those whose tasks hold the tree.
abbrev pub IsFree : (busy : List String) → (run_id : Option String) → Type 0
IsFree busy none = Unit
IsFree busy (some run_id) = All (λ other. other ≢ run_id) busy

-- The run lets the task start, the tree is not shared or is free, and the tool is that of the settings.
abbrev pub MayStart :
    EngineConfig → Task → (busy : List String) → Option (Option Run) → (tool : String) → Type 0
MayStart cfg task busy none tool = ⊥
MayStart cfg task busy (some run) tool =
    IsActive run
    × (((resolve task run cfg).worktree_mode ≢ WorktreeMode.shared) ⊎ IsFree busy task.run_id)
    × (tool ≡ (resolve task run cfg).tool)

abbrev pub MayMove : Task → Progress → Transition → Type 0
MayMove task s (Intent.claim session worktree branch base_commit) = s.session ≡ some session
MayMove task s (Intent.block reason) = Unit
MayMove task s _ = ⊥

abbrev pub MayAsk : EngineConfig → Task → (busy : List String) → Progress → Command → Type 0
MayAsk cfg task busy s (get_run id) = some id ≡ task.run_id
MayAsk cfg task busy s (hcom_spawn tool tag dir prompt launch) =
    (tag ≡ task.id) × (s.session ≡ none) × MayStart cfg task busy s.run tool
MayAsk cfg task busy s (transition id intent by) = (id ≡ task.id) × MayMove task s intent
MayAsk cfg task busy s (revive_with_guidance id guide by bump) = id ≡ task.id
MayAsk cfg task busy s (reserve id) = (t : Task) × (s.claimed ≡ some t) × (id ≡ t.id)
MayAsk cfg task busy s (spawn_drive eff t) = s.claimed ≡ some t
MayAsk cfg task busy s _ = Unit

abbrev pub after_start : Progress → Outcome String String → Progress
after_start s (ok session) = record s { session = some session }
after_start s (err e) = s

abbrev pub after_move : Progress → Transition → Outcome StoreError Task → Progress
after_move s (Intent.claim session worktree branch base_commit) (ok t) = record s {
  claimed = some t;
}
after_move s _ _ = s

abbrev pub learn : Progress → (c : Command) → Answer c → Progress
learn s (get_run id) x = record s { run = some (or_none x) }
learn s (hcom_spawn tool tag dir prompt launch) x = after_start s x
learn s (transition id intent by) x = after_move s intent x
learn s _ x = s

-- One agent at most is started, for the task itself and by the settings of its run, and only where
-- its run allows it; the task is claimed for that agent, and what is driven is the task as claimed.
abbrev pub claims_one : EngineConfig → Task → (busy : List String) → Protocol
claims_one cfg task busy = record { State = Progress; Allows = MayAsk cfg task busy; after = learn }

-- The runs that count as busy afterwards: with that of the task, if it was claimed.
abbrev pub IsMarked : (busy : List String) → (claimed : Option Task) → List String → Type 0
IsMarked busy none busy' = busy' ≡ busy
IsMarked busy (some t) busy' = busy' ≡ mark t.run_id busy

abbrev pub Marked : Claiming → Claiming → Progress → Type 0
Marked st st' s = IsMarked st.busy_shared_runs s.claimed st'.busy_shared_runs
