-- ===== src/Engine/Tests/Programs.antt =====
-- The programs of the scheduler in concrete worlds, and the theorems on them at concrete inputs.
use lazybones.Prelude.{
  ◌≡◌, refl, String, Bool, true, false, none, some, List, [], ◌∷◌, ◌++◌, Outcome, ok, err, ◌==◌,
  if◌then◌else◌,
}
use lazybones.Store.Error.{operation}
use lazybones.Store.Task.WorktreeMode
use lazybones.Store.Task.RetryStrategy.{quick}
use lazybones.Store.Task.Model.{Task, seed}
use lazybones.Engine.Config.{EngineConfig, fast_forward}
use lazybones.Engine.Effective.{EffectiveGit}
use lazybones.Engine.Commands.{
  GitOut, git, sh, is_dir, is_file, exists, read_to_string, read_dir, create_dir_all, write_file,
  seed_claude_folder_trust, hcom_list, hcom_wait, hcom_kill_tag, hcom_spawn, gate_check, pass,
  list_tasks, list_run_tasks, list_runs, get_task, get_run, chat_history, newly_ready,
  unpromotable_run_ids, transition, revive_with_guidance, file_follow_up, close_on_done, is_driving,
  reserve, release, spawn_drive,
}
use lazybones.Engine.Program.{World, run}
use lazybones.Engine.Program.Obeys.{Obeys}
use lazybones.Engine.Program.Settles.{Settles}
use lazybones.Engine.Block.{block}
use lazybones.Engine.Block.Budget.{retry_within_budget, waiting, Settled, block-Obeys}
use lazybones.Engine.Landing.{land, rev_parse, checkout, push, head_sha}
use lazybones.Engine.Landing.Order.{lands_by, start, Reported, Anywhere, land-Obeys}
use lazybones.Engine.Gate as Gate
use lazybones.Engine.Gate.{tail}
use lazybones.Engine.Gate.Preflight.{rewritten, uses_cargo_workspace, rewrite_for_crate}
use lazybones.Engine.Await.{blocked_reason, await_signal}
use lazybones.Engine.Await.Polls.{polls_for_an_hour, Ends, await_signal-Obeys}
use lazybones.Engine.Finish.{gate_and_land}
use lazybones.Engine.Finish.Green.{done_when_green, unseen, Anyhow}
use lazybones.Engine.Finish.Done.{gate_and_land-Obeys}
use lazybones.Engine.Reclaim.{Clock}
use lazybones.Engine.Reconcile.{reconcile}
use lazybones.Engine.Reconcile.Justified.{is_justified, nothing_seen}
use lazybones.Engine.Reconcile.Justified.Passes.{reconcile-Obeys}
use lazybones.Engine.Workspace.{workspace_preflight}
use lazybones.Engine.Workspace.Ready.{unvisited, looks_at, IsVerdict, workspace_preflight-Obeys}
use lazybones.Engine.Tick.{Claiming, no_runs, claim_and_spawn}
use lazybones.Engine.Tick.Room.{starts_within, nothing_known}
use lazybones.Engine.Tick.Starts.{claim_and_spawn-Obeys}

-- A text in lower case already.
abbrev lower : String → String
lower s = s

abbrev task : Task
task = record (seed "auth" "import" "Add auth" "Do it." [] [] none) {
  worktree = some "/repo/.lazy/wt/auth";
  branch = some "lazy/auth";
  base_commit = some "c0";
  auto_retry = some quick;
}

abbrev eff : EffectiveGit
eff = record {
  repo = "/repo";
  base_branch = "main";
  branch_prefix = "lazy/";
  worktree_mode = WorktreeMode.new;
  worktree_name = none;
  tool = "claude";
  model = none;
  effort = none;
  gate = "cargo test" ∷ [];
  landing = fast_forward;
  auto_trust_agent_folder = true;
}

abbrev config : EngineConfig
config = record {
  target_repo = "/repo";
  base_branch = "main";
  remote = "origin";
  gate = "cargo test" ∷ [];
  concurrency = 3;
  worktrees = true;
  worktree_root = ".lazy/wt";
  branch_prefix = "lazy/";
  merge = fast_forward;
  agent_tool = "claude";
  agent_model = none;
  agent_effort = none;
  permission_flags = λ tool. none;
  auto_trust_agent_folder = true;
  stale_after_secs = 300;
  tick_secs = 2;
  issue_sync_every_n_ticks = 0;
}

gate_and_land-Obeys_example :
    Obeys (done_when_green task eff) (gate_and_land lower config eff task) unseen Anyhow
gate_and_land-Obeys_example = gate_and_land-Obeys lower config eff task

claim_and_spawn-Obeys_example :
    Obeys (starts_within config) (claim_and_spawn lower config) nothing_known (λ _ _. Unit)
claim_and_spawn-Obeys_example = claim_and_spawn-Obeys lower config

abbrev first_pass : Claiming
first_pass = record { runs = no_runs; busy_shared_runs = "import" ∷ [] }

abbrev stopped_clock : Clock
stopped_clock = record { utc_now = 0; parse_from_rfc3339 = λ text. none }

reconcile-Obeys_example :
    Obeys
      (is_justified lower stopped_clock config)
      (reconcile lower stopped_clock config)
      nothing_seen
      (λ _ _. Unit)
reconcile-Obeys_example = reconcile-Obeys lower stopped_clock config

workspace_preflight-Obeys_example :
    Obeys
      (looks_at "/repo" ".lazy/wt")
      (workspace_preflight "/repo" "main" ".lazy/wt")
      unvisited
      IsVerdict
workspace_preflight-Obeys_example = workspace_preflight-Obeys "/repo" "main" ".lazy/wt"

block-Obeys_example :
    Obeys
      (retry_within_budget task "gate red" "scheduler:finish")
      (block lower task "gate red" "scheduler:finish")
      waiting
      (λ _ s. Settled s)
block-Obeys_example = block-Obeys lower task "gate red" "scheduler:finish"

land-Obeys_example :
    Obeys
      (lands_by task eff config "lazy/auth" fast_forward)
      (land task eff config)
      start
      (Settles (lands_by task eff config "lazy/auth" fast_forward) Reported Anywhere)
unfolding seed
land-Obeys_example = land-Obeys task eff config "lazy/auth" refl

await_signal-Obeys_example : Obeys polls_for_an_hour (await_signal "auth") 0 Ends
await_signal-Obeys_example = await_signal-Obeys "auth"

abbrev exits : Bool → (stdout : String) → Outcome String GitOut
exits b out = ok (record { ok = b; stdout = out; stderr = "" })

-- What `git` answers to a landing: each call exits zero, and the head is `c1`.
abbrev answers : List String → Outcome String GitOut
answers [] = exits false ""
answers (call ∷ args) = if call == "rev-parse" then exits true "c1" else exits true ""

-- A world that keeps the calls of `git` in their order; the store fails, and the rest is empty.
abbrev world : World (List (List String))
world (git repo args) calls = (answers args, calls ++ args ∷ [])
world (sh w c) calls = (ok (record { success = true; stdout = ""; stderr = "" }), calls)
world (is_dir path) calls = (false, calls)
world (is_file path) calls = (false, calls)
world (exists path) calls = (false, calls)
world (read_to_string path) calls = (none, calls)
world (read_dir path) calls = (none, calls)
world (create_dir_all path) calls = (ok tt, calls)
world (write_file path c) calls = (ok tt, calls)
world (seed_claude_folder_trust path) calls = (tt, calls)
world hcom_list calls = (ok [], calls)
world (hcom_wait sql secs) calls = (ok [], calls)
world (hcom_kill_tag tag) calls = (ok tt, calls)
world (hcom_spawn tool tag dir prompt launch) calls = (ok "name", calls)
world (gate_check t w) calls = (pass, calls)
world (list_tasks s) calls = (err (operation "down"), calls)
world (list_run_tasks r) calls = (err (operation "down"), calls)
world list_runs calls = (err (operation "down"), calls)
world (get_task i) calls = (err (operation "down"), calls)
world (get_run i) calls = (err (operation "down"), calls)
world (chat_history i) calls = (err (operation "down"), calls)
world (newly_ready ids) calls = (err (operation "down"), calls)
world unpromotable_run_ids calls = (err (operation "down"), calls)
world (transition i t a) calls = (err (operation "down"), calls)
world (revive_with_guidance i g a b) calls = (err (operation "down"), calls)
world (file_follow_up e) calls = (ok tt, calls)
world (close_on_done t) calls = (tt, calls)
world (is_driving i) calls = (false, calls)
world (reserve i) calls = (true, calls)
world (release i) calls = (tt, calls)
world (spawn_drive e t) calls = (tt, calls)

land_runs : run world (land task eff config) [] ≡ (
  ok "c1",
  ("checkout" ∷ "main" ∷ [])
      ∷ ("merge" ∷ "--ff-only" ∷ "lazy/auth" ∷ [])
      ∷ ("remote" ∷ "get-url" ∷ "origin" ∷ [])
      ∷ ("push" ∷ "origin" ∷ "main" ∷ [])
      ∷ ("rev-parse" ∷ "HEAD" ∷ [])
      ∷ [],
)
unfolding land push checkout rev_parse head_sha seed
land_runs = refl

rewritten_runs :
    rewritten ("app" ∷ "srv" ∷ []) ("cargo test --workspace" ∷ "npm test" ∷ [])
    ≡ "cargo test --manifest-path app/Cargo.toml" ∷ "cargo test --manifest-path srv/Cargo.toml"
      ∷ "npm test" ∷ []
unfolding rewritten uses_cargo_workspace rewrite_for_crate
rewritten_runs = refl

-- Of two commands of Cargo in one line the second loses its flag and gets no manifest.
compound_runs :
    rewritten ("app" ∷ []) ("cargo fmt --workspace && cargo test --workspace" ∷ [])
    ≡ "cargo fmt --manifest-path app/Cargo.toml && cargo test" ∷ []
unfolding rewritten uses_cargo_workspace rewrite_for_crate
compound_runs = refl

blocked_reason_runs : blocked_reason "foo BLOCKED: deps missing" ≡ "deps missing"
unfolding blocked_reason
blocked_reason_runs = refl

tail_runs : tail "aé€b" 4 ≡ "€b"
unfolding tail Gate.len
tail_runs = refl
