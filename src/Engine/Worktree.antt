-- ===== src/Engine/Worktree.antt =====
-- crates/lazybones-engine/src/scheduler/worktree.rs: the working tree of a task, made before the claim
-- and removed after the landing. A path is its text.
pub mod Footprint
use Prim.Native.String.{◌++◌ as ◌<>◌}
use lazybones.Prelude.{
  String, Bool, true, false, not, ◌||◌, Option, none, some, [], ◌∷◌, Outcome, ok, err,
  if◌then◌else◌, unwrap_or, or_else, ◌==◌, join_path, is_some, is_none,
}
use lazybones.Store.Task.WorktreeMode
use lazybones.Store.Task.WorktreeMode.{WorktreeMode, mode_eq}
use lazybones.Store.Task.Model.{Task}
use lazybones.Engine.Config.{EngineConfig}
use lazybones.Engine.Effective.{EffectiveGit}
use lazybones.Engine.Commands.{
  git, GitOut, is_dir, exists, create_dir_all, write_file, seed_claude_folder_trust,
}
use lazybones.Engine.Program.{Program, perform, stop, ◌>>=◌ as ◌then◌}
use lazybones.Engine.Program.Fallible.{Attempt, ◌>>=◌, ◌>>◌, succeed, bail}
use lazybones.Engine.Landing.{require_ok}

abbrev pub claude_settings_bootstrap : String
claude_settings_bootstrap =
    "{\n  \"permissions\": {\n    \"allow\": [\"Bash\", \"Edit\", \"Write\", \"Read\", \"Glob\", \"Grep\", "
    <> "\"WebFetch\", \"WebSearch\", \"Skill\", \"Task\", \"TodoWrite\", \"NotebookEdit\"]\n  }\n}\n"

pub record Provisioned : Type 0 where
  pub worktree : String
  pub branch : String
  pub reused : Bool

-- Without worktrees every mode is `Branch`.
unfoldable pub configured_mode : EffectiveGit → EngineConfig → WorktreeMode
configured_mode eff cfg = if cfg.worktrees then eff.worktree_mode else WorktreeMode.branch

-- A shared tree of no run is a new one.
unfoldable pub effective_mode : Task → EffectiveGit → EngineConfig → WorktreeMode
unfolding configured_mode
effective_mode task eff cfg =
    let mode = configured_mode eff cfg in
    if mode_eq mode WorktreeMode.shared
    then (if is_none task.run_id then WorktreeMode.new else mode)
    else mode

abbrev pub after_create : (dir : String) → Outcome String (Unit {0}) → Program (Unit {0})
after_create dir (ok made) =
    perform (write_file (join_path dir "settings.json") claude_settings_bootstrap) then λ written.
    stop
after_create dir (err e) = stop

-- The settings of a tree that has none; the errors of the writes are dropped.
abbrev pub write_settings : (dir : String) → Program (Unit {0})
write_settings dir = perform (create_dir_all dir) then after_create dir

abbrev pub bootstrap_settings : (repo worktree : String) → Program (Unit {0})
bootstrap_settings repo worktree =
    perform (exists (join_path repo ".claude/settings.json")) then λ in_repo.
    if in_repo
    then stop
    else perform (exists (join_path (join_path worktree ".claude") "settings.json")) then λ in_tree.
        if in_tree then stop else write_settings (join_path worktree ".claude")

abbrev pub trust_folder : (worktree : String) → (auto_trust : Bool) → Program (Unit {0})
trust_folder worktree auto_trust =
    if auto_trust then perform (seed_claude_folder_trust worktree) else stop

unfoldable pub bootstrap_permissions :
    (repo worktree tool : String) → (auto_trust : Bool) → Program (Unit {0})
bootstrap_permissions repo worktree tool auto_trust =
    if not (tool == "claude")
    then stop
    else trust_folder worktree auto_trust then λ u. bootstrap_settings repo worktree

unfoldable pub branch_exists : (repo name : String) → Attempt Bool
branch_exists repo name = do
  out ← perform (git repo ("show-ref" ∷ "--verify" ∷ "--quiet" ∷ ("refs/heads/" <> name) ∷ []))
  succeed out.ok

-- What a tree is named after: its name in the workspace, the run of a shared one, or the task.
unfoldable pub worktree_key : WorktreeMode → Task → EffectiveGit → String
worktree_key mode task eff =
    unwrap_or eff.worktree_name
      (if mode_eq mode WorktreeMode.shared then unwrap_or task.run_id task.id else task.id)

-- The branch of a task that does not go by the name of its tree.
abbrev pub own_branch : Task → EffectiveGit → String
own_branch task eff = unwrap_or task.branch (eff.branch_prefix <> task.id)

-- A tree on a branch that exists, or on one that is cut from the base.
abbrev pub add_tree : Task → EffectiveGit → (path branch : String) → Attempt (Unit {0})
unfolding branch_exists
add_tree task eff path branch = do
  there ← branch_exists eff.repo branch
  out ← perform (
      git eff.repo (
        if there
        then "worktree" ∷ "add" ∷ path ∷ branch ∷ []
        else "worktree" ∷ "add" ∷ path ∷ "-b" ∷ branch ∷ eff.base_branch ∷ []))
  require_ok ("git worktree add for " <> task.id <> " failed: ") out

abbrev pub head_or : (base : String) → Outcome String GitOut → String
head_or base (ok out) = if out.ok then out.stdout else base
head_or base (err e) = base

-- A tree that is there goes onto its branch, at its head.
abbrev pub adopt_tree : Task → EffectiveGit → (path branch : String) → Attempt (Unit {0})
adopt_tree task eff path branch = perform (git path ("rev-parse" ∷ "HEAD" ∷ [])) then λ answer.
    perform (git path ("checkout" ∷ "-B" ∷ branch ∷ head_or eff.base_branch answer ∷ []))
    >>= require_ok
        ("git checkout -B " <> branch <> " in reused tree for " <> task.id <> " failed: ")

-- The modes `New` and `Shared`.
abbrev pub provision_keyed : WorktreeMode → Task → EffectiveGit → EngineConfig → Attempt Provisioned
unfolding worktree_key bootstrap_permissions
provision_keyed mode task eff cfg =
    let key = worktree_key mode task eff in
    let path = join_path (join_path eff.repo cfg.worktree_root) key in
    let branch = eff.branch_prefix <> key in
    perform (is_dir path) then λ reused. perform (is_dir path) then λ there.
    (if there then adopt_tree task eff path branch else add_tree task eff path branch) >>= λ u.
    bootstrap_permissions eff.repo path eff.tool eff.auto_trust_agent_folder then λ v.
    succeed (record { worktree = path; branch = branch; reused = reused })

-- A tree of another task goes onto the branch of this one, at its head.
abbrev pub reset_reused : Task → EffectiveGit → (path : String) → Attempt (Unit {0})
reset_reused task eff path =
    perform (git path ("checkout" ∷ "-B" ∷ own_branch task eff ∷ []))
    >>= require_ok (
        "git checkout -B "
        <> own_branch task eff
        <> " in reused tree for "
        <> task.id
        <> " failed: ")

-- The main checkout goes onto the branch of the task, at the base.
abbrev pub reset_main : Task → EffectiveGit → Attempt (Unit {0})
reset_main task eff =
    perform (git eff.repo ("checkout" ∷ "-B" ∷ own_branch task eff ∷ eff.base_branch ∷ []))
    >>= require_ok ("git checkout -B " <> own_branch task eff <> " for " <> task.id <> " failed: ")

abbrev pub reuse_tree : Task → EffectiveGit → (path : Option String) → Attempt Provisioned
unfolding bootstrap_permissions
reuse_tree task eff none = bail ("reuse mode but task " <> task.id <> " has no worktree")
reuse_tree task eff (some path) = perform (is_dir path) then λ there.
    if not there
    then bail ("reuse worktree " <> path <> " for " <> task.id <> " is missing or not a dir")
    else reset_reused task eff path >>= λ u.
        bootstrap_permissions eff.repo path eff.tool eff.auto_trust_agent_folder then λ v.
        succeed (record { worktree = path; branch = own_branch task eff; reused = true })

-- The main checkout, reset to the base.
abbrev pub check_out_branch : Task → EffectiveGit → Attempt Provisioned
unfolding bootstrap_permissions
check_out_branch task eff = reset_main task eff >>= λ u.
    bootstrap_permissions eff.repo eff.repo eff.tool eff.auto_trust_agent_folder then λ v.
    succeed (record { worktree = eff.repo; branch = own_branch task eff; reused = false })

abbrev pub provision_in :
    WorktreeMode
    → Task
    → EffectiveGit
    → EngineConfig
    → (reuse_path : Option String) → Attempt Provisioned
provision_in WorktreeMode.new task eff cfg reuse_path =
    provision_keyed WorktreeMode.new task eff cfg
provision_in WorktreeMode.shared task eff cfg reuse_path =
    provision_keyed WorktreeMode.shared task eff cfg
provision_in WorktreeMode.reuse task eff cfg reuse_path =
    reuse_tree task eff (or_else reuse_path task.worktree)
provision_in WorktreeMode.branch task eff cfg reuse_path = check_out_branch task eff

unfoldable pub provision :
    Task → EffectiveGit → EngineConfig → (reuse_path : Option String) → Attempt Provisioned
unfolding effective_mode
provision task eff cfg reuse_path =
    provision_in (effective_mode task eff cfg) task eff cfg reuse_path

-- The tree of a task, removed by force; a removal that fails is logged.
abbrev pub remove_tree : EffectiveGit → (worktree : Option String) → Attempt (Unit {0})
remove_tree eff none = succeed tt
remove_tree eff (some path) = do
  out ← perform (git eff.repo ("worktree" ∷ "remove" ∷ "--force" ∷ path ∷ []))
  succeed tt

-- The main checkout and a shared tree stay.
unfoldable pub teardown : Task → EffectiveGit → EngineConfig → Attempt (Unit {0})
unfolding configured_mode
teardown task eff cfg =
    let mode = configured_mode eff cfg in
    if mode_eq mode WorktreeMode.branch || mode_eq mode WorktreeMode.shared
    then succeed tt
    else remove_tree eff task.worktree
