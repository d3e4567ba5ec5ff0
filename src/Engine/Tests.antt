-- ===== src/Engine/Tests.antt =====
-- The theorems on the scheduler at concrete inputs.
mod Programs
use lazybones.Prelude.{
  suc, ◌+◌, ◌*◌, ◌≤◌, ◌≡◌, ◌↔◌, ◌⊎◌, inl, inr, refl, Bool, true, String, Option, none, some, List,
  [], ◌∷◌, option_map, length, take, any, All, ◌&&◌, ◌==◌, contains,
}
use lazybones.Store.Task.WorktreeMode
use lazybones.Store.Task.Model.{Task, seed}
use lazybones.Store.Run.Lifecycle
use lazybones.Store.Run.MergeMode as Stored
use lazybones.Store.Run.Model.{Run}
use lazybones.Engine.Config.{EngineConfig, fast_forward, pr}
use lazybones.Engine.Fair.{fair_order, group_from, push_task, rounds, round}
use lazybones.Engine.Fair.Rounds.{count}
use lazybones.Engine.Fair.Places.{Before}
use lazybones.Engine.Fair.Order.{fair_order-count}
use lazybones.Engine.Fair.Turns.{runs_of, fair_order-Before}
use lazybones.Engine.Claims.{budget, is_skipped, unpromotable_run_ids}
use lazybones.Engine.Claims.Bounds.{budget_bounds, unpromotable-is_skipped}
use lazybones.Engine.Reclaim.{
  HcomAgent, agent_for, Clock, heartbeat_age_secs, none_or_from, blocks, reclaims, reason_of,
  decide, launch_block_reason, is_wedged,
}
use lazybones.Engine.Reclaim.Verdict.{IsGone, IsStale, decide_iff, decide-blocks}
use lazybones.Engine.Reclaim.Stuck.{First, IsStuck, Tells}

abbrev task_in : (id run_id : String) → Task
task_in i r = record (seed i "import" "T" "s" [] [] none) { run_id = some r }

-- Three ready tasks of one run, and one of another.
abbrev ready_tasks : List Task
ready_tasks = task_in "a1" "a" ∷ task_in "a2" "a" ∷ task_in "a3" "a" ∷ task_in "b1" "b" ∷ []

abbrev fair_tasks : List Task
fair_tasks = task_in "a1" "a" ∷ task_in "b1" "b" ∷ task_in "a2" "a" ∷ task_in "a3" "a" ∷ []

fair_order_found : fair_order ready_tasks ≡ some fair_tasks
unfolding fair_order group_from push_task rounds round seed
fair_order_found = refl

abbrev of_b : Task → Bool
of_b t = any (λ r. r == "b") (elim t.run_id [ none ↦ [] | some r ↦ r ∷ [] ])

fair_order-count_example :
    (out : List Task) × (fair_order ready_tasks ≡ some out)
    × (count of_b out ≡ count of_b ready_tasks)
fair_order-count_example = fair_order-count ready_tasks of_b

fair_order-Before_example :
    Before fair_tasks (suc 0 * length (runs_of ready_tasks)) (task_in "b1" "b")
unfolding seed
fair_order-Before_example =
    fair_order-Before ready_tasks fair_tasks "b" 0 (task_in "b1" "b") fair_order_found refl

abbrev config : EngineConfig
config = record {
  target_repo = "/repo";
  base_branch = "main";
  remote = "origin";
  gate = "cargo test" ∷ [];
  concurrency = 3;
  worktrees = true;
  worktree_root = ".lazy/wt";
  branch_prefix = "lazy/";
  merge = fast_forward;
  agent_tool = "claude";
  agent_model = none;
  agent_effort = none;
  permission_flags = λ tool. none;
  auto_trust_agent_folder = true;
  stale_after_secs = 300;
  tick_secs = 2;
  issue_sync_every_n_ticks = 0;
}

abbrev shared_run : Run
shared_run = record {
  id = "a";
  title = "A";
  workspace = record {
    repo = "/repo/a";
    base_branch = none;
    branch_prefix = none;
    worktree_mode = WorktreeMode.shared;
    worktree_name = none;
    tool = some "codex";
    model = none;
    effort = none;
    gate = some [];
    merge = some Stored.merge;
    auto_pr = none;
  };
  lifecycle = Lifecycle.active;
  created_at = "2026-01-01T00:00:00Z";
  started_at = none;
  hcom_log_cursor = none;
  pr_url = none;
}

unpromotable-is_skipped_example :
    contains (unpromotable_run_ids (shared_run ∷ [])) "a"
    ≡ any (λ r. r.id == "a" && is_skipped (some r)) (shared_run ∷ [])
unpromotable-is_skipped_example = unpromotable-is_skipped (shared_run ∷ []) "a"

abbrev agent : (status detail : String) → HcomAgent
agent s d = record { name = "a1-lulu"; base_name = "lulu"; status = s; detail = d; tag = some "a1" }

abbrev clock : Clock
clock = record { utc_now = 500000000000; parse_from_rfc3339 = λ s. none }

decide_iff_example :
    (decide (λ s. s) clock (agent "dead" "" ∷ []) 300 (task_in "a1" "a") ≡ reclaims) ↔ (
      ((a : HcomAgent)
        → First (task_in "a1" "a").id (agent "dead" "" ∷ []) a
        → ¬ IsStuck (λ s. s) a)
      × All (IsGone (task_in "a1" "a").id) (agent "dead" "" ∷ [])
      × IsStale clock 300 (task_in "a1" "a").heartbeat)
decide_iff_example = decide_iff (λ s. s) clock (agent "dead" "" ∷ []) 300 (task_in "a1" "a")

-- A dead agent in front of a live one.
abbrev two_agents : List HcomAgent
two_agents = agent "dead" "exited before startup" ∷ agent "active" "" ∷ []

decide-blocks_example :
    (decide (λ s. s) clock two_agents 300 (task_in "a1" "a")
      ≡ blocks "launch_blocked: exited before startup")
    ↔ ((a : HcomAgent) × First (task_in "a1" "a").id two_agents a
        × IsStuck (λ s. s) a
        × Tells a "launch_blocked: exited before startup")
decide-blocks_example =
    decide-blocks (λ s. s) clock two_agents 300 (task_in "a1" "a")
      "launch_blocked: exited before startup"

-- The live agent is at work, and the task is blocked.
blocked_at_work :
    decide (λ s. s) clock two_agents 300 (task_in "a1" "a")
    ≡ blocks "launch_blocked: exited before startup"
unfolding seed
blocked_at_work =
    (decide-blocks (λ s. s) clock two_agents 300 (task_in "a1" "a")
        "launch_blocked: exited before startup").1
      (agent "dead" "exited before startup", inl (refl, refl), inr refl, inr (refl, refl))
