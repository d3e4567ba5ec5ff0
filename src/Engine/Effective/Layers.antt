-- ===== src/Engine/Effective/Layers.antt =====
-- Which layer each setting of a claim comes from.
use lazybones.Prelude.{◌≡◌, ◌⊎◌, true, false, String, Option, none, some, option_map, is_blank}
use lazybones.Store.Task.WorktreeMode.{WorktreeMode}
use lazybones.Store.Task.Model.{Task}
use lazybones.Store.Run.Model.{Run, Workspace}
use lazybones.Engine.Config.{EngineConfig, pr}
use lazybones.Engine.Effective.{EffectiveGit, map_merge}

-- Of the task, the workspace and the global configuration, the first that sets a value wins.
pub data Wins {A : Type 0} (task workspace : Option A) (global : A) : A → Type 0 where
  by_task : (a : A) → task ≡ some a → Wins task workspace global a
  by_workspace : (a : A) → task ≡ none → workspace ≡ some a → Wins task workspace global a
  by_global : task ≡ none → workspace ≡ none → Wins task workspace global global

-- What the workspace of the run sets, if there is a run.
abbrev pub in_workspace : {A : Type 0} → Option Run → (Workspace → Option A) → Option A
in_workspace none f = none
in_workspace (some run) f = f run.workspace

-- A run of its own replaces the mode of the worktree on the task.
abbrev override_in : Task → Option Run → Option WorktreeMode
override_in task none = none
override_in task (some run) = task.worktree_mode_override

-- A name that is blank is none.
abbrev Named : (wanted : Option String) → Option String → Type 0
Named none name = name ≡ none
Named (some wanted) name =
    ((is_blank wanted ≡ true) × (name ≡ none)) ⊎ ((is_blank wanted ≡ false) × (name ≡ some wanted))

abbrev Shares : Option Run → WorktreeMode → Type 0
Shares none mode = ⊥
Shares (some run) mode = mode ≡ WorktreeMode.shared

-- Which layer sets each setting of a claim.
pub record Layered (task : Task) (run : Option Run) (cfg : EngineConfig) (eff : EffectiveGit)
    : Type 0 where
  pub tool : Wins task.tool (in_workspace run (λ w. w.tool)) cfg.agent_tool eff.tool
  pub model :
      Wins
        (option_map some task.model)
        (option_map some (in_workspace run (λ w. w.model)))
        cfg.agent_model
        eff.model
  pub effort :
      Wins
        (option_map some task.effort)
        (option_map some (in_workspace run (λ w. w.effort)))
        cfg.agent_effort
        eff.effort
  pub repo : Wins none (in_workspace run (λ w. some w.repo)) cfg.target_repo eff.repo
  pub base : Wins none (in_workspace run (λ w. w.base_branch)) cfg.base_branch eff.base_branch
  pub prefix :
      Wins none (in_workspace run (λ w. w.branch_prefix)) cfg.branch_prefix eff.branch_prefix
  pub gate : Wins none (in_workspace run (λ w. w.gate)) cfg.gate eff.gate
  pub trust :
      Wins task.auto_trust_agent_folder none cfg.auto_trust_agent_folder eff.auto_trust_agent_folder
  pub mode :
      Wins
        (override_in task run)
        (in_workspace run (λ w. some w.worktree_mode))
        task.worktree_mode
        eff.worktree_mode
  pub name : Named (in_workspace run (λ w. w.worktree_name)) eff.worktree_name
  pub shared : Shares run eff.worktree_mode → eff.landing ≡ pr
  pub lands :
      ¬ Shares run eff.worktree_mode
      → Wins none (in_workspace run (λ w. option_map map_merge w.merge)) cfg.merge eff.landing
