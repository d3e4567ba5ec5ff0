-- ===== src/Engine/Reconcile/Justified.antt =====
-- crates/lazybones-engine/src/scheduler/reclaim.rs: what the pass may ask, and what it has seen.
pub mod Passes
use Prim.Native.String.{◌++◌ as ◌<>◌}
use mathlib.Core.List.{Mem}
use lazybones.Prelude.{
  ℕ, All, ◌≢◌, Option, some, String, ◌≡◌, refl, sym, subst, ◌∙◌, ◌⊎◌, inl, inr, true, not, List, [],
  ◌∷◌, Outcome, ok, err, by_test, arith,
}
use lazybones.Store.Error.{StoreError}
use lazybones.Store.Task.Status
use lazybones.Store.Task.Status.{Status}
use lazybones.Store.Task.Model.{Task}
use lazybones.Store.Task.Transition as Intent
use lazybones.Store.Task.Transition.{Transition}
use lazybones.Store.Run.Model.{Run}
use lazybones.Engine.Config.{EngineConfig}
use lazybones.Engine.Commands.{
  Command, Answer, hcom_list, hcom_kill_tag, list_tasks, list_runs, transition,
  revive_with_guidance, file_follow_up,
}
use lazybones.Engine.Program.{Program, for_each}
use lazybones.Engine.Program.Obeys.{
  Protocol, Obeys, Obeys_mono, bind-Obeys, for_each-Obeys, for_members-Obeys,
}
use lazybones.Engine.Program.Within.{Within, bind-Within, Within-mono, Within-Obeys}
use lazybones.Engine.Block.{block}
use lazybones.Engine.Block.Footprint.{IsBlocking, block-Within}
use lazybones.Engine.Reclaim.{
  HcomAgent, Clock, Decision, blocks, reclaims, leaves, decide, has_live_agent,
}
use lazybones.Store.Run.Lifecycle
use lazybones.Engine.Reclaim.Stuck as Stuck
use lazybones.Engine.Reclaim.Stuck.{First}
use lazybones.Engine.Reclaim.Verdict.{IsGone, IsStale}
use lazybones.Engine.Tick.{or_empty}
use lazybones.Engine.Reconcile.{
  actor, is_illegitimate, reap_summarizer, reap_task, for_answer, for_tasks, reap_live,
  reap_finished_agents, act_on, reconcile_task, reconcile_with, reconcile,
}

-- The agents that live, and the runs and the tasks that were queried last, with their status.
pub record Seen : Type 0 where
  pub live : List HcomAgent
  pub runs : List Run
  pub asked : Status
  pub tasks : List Task

abbrev pub nothing_seen : Seen
nothing_seen = record { live = []; runs = []; asked = Status.pending; tasks = [] }

abbrev pub InFlight : Status → Type 0
InFlight status = Mem status (Status.running ∷ Status.gating ∷ [])

abbrev pub IsOver : Status → Type 0
IsOver status = Mem status (Status.done ∷ Status.blocked ∷ [])

abbrev pub or_nobody : Outcome String (List HcomAgent) → List HcomAgent
or_nobody (ok live) = live
or_nobody (err e) = []

module _ (to_lowercase : String → String) (clock : Clock) (cfg : EngineConfig) where
  -- The task with this id is in flight, as the store listed it.
  abbrev IsListed : Seen → (id : String) → Task → Type 0
  IsListed s id t = Mem t s.tasks × InFlight s.asked × (id ≡ t.id)

  -- It is in flight, and the first agent with its tag is stuck at its start.
  abbrev pub IsStuck : Seen → (id : String) → Type 0
  IsStuck s id =
      (t : Task) × IsListed s id t
      × ((a : HcomAgent) × First t.id s.live a × Stuck.IsStuck to_lowercase a)

  -- It is in flight, no first agent with its tag is stuck, all of them are dead, and its heartbeat is
  -- stale.
  abbrev pub IsLost : Seen → (id : String) → Type 0
  IsLost s id =
      (t : Task) × IsListed s id t
      × ((a : HcomAgent) → First t.id s.live a → ¬ Stuck.IsStuck to_lowercase a)
      × All (IsGone t.id) s.live
      × IsStale clock cfg.stale_after_secs t.heartbeat

  -- An agent with the tag is listed, and not dead.
  abbrev pub Lives : Seen → (tag : String) → Type 0
  Lives s tag = (a : HcomAgent) × Mem a s.live × (a.tag ≡ some tag) × (a.status ≢ "dead")

  -- A task that is over still has its agent.
  abbrev Outlives : Seen → (tag : String) → Type 0
  Outlives s tag = (t : Task) × Mem t s.tasks × IsOver s.asked × (tag ≡ t.id) × Lives s tag

  -- The run is stopped, has a pull request, or does not ask for one.
  abbrev pub IsPast : Run → Type 0
  IsPast r =
      (r.lifecycle ≡ Lifecycle.stopped)
      ⊎ ((url : String) × (r.pr_url ≡ some url))
      ⊎ (r.workspace.auto_pr ≢ some true)

  -- A run has a summarizer that it has no use for.
  abbrev Lingers : Seen → (tag : String) → Type 0
  Lingers s tag = (r : Run) × Mem r s.runs × (tag ≡ r.id <> "-autopr") × IsPast r × Lives s tag

  abbrev MayMove : Seen → (id : String) → Transition → Type 0
  MayMove s id (Intent.block reason) = IsStuck s id
  MayMove s id Intent.reclaim = IsLost s id
  MayMove s id _ = ⊥

  abbrev pub MayAsk : Seen → Command → Type 0
  MayAsk s hcom_list = Unit
  MayAsk s list_runs = Unit
  MayAsk s (list_tasks status) = Unit
  MayAsk s (file_follow_up entry) = Unit
  MayAsk s (hcom_kill_tag tag) = IsStuck s tag ⊎ Outlives s tag ⊎ Lingers s tag
  MayAsk s (transition id intent by) = MayMove s id intent
  MayAsk s (revive_with_guidance id guide by bump) = IsStuck s id
  MayAsk s _ = ⊥

  abbrev pub learn : Seen → (c : Command) → Answer c → Seen
  learn s hcom_list x = record s { live = or_nobody x }
  learn s list_runs x = record s { runs = or_empty x }
  learn s (list_tasks status) x = record s { asked = status; tasks = or_empty x }
  learn s _ x = s

  -- An agent is ended, a task moved or revived only as what the world answered justifies it.
  abbrev pub is_justified : Protocol
  is_justified = record { State = Seen; Allows = MayAsk; after = learn }
