-- ===== src/Engine/Landing.antt =====
-- crates/lazybones-engine/src/scheduler/merge.rs: the commit of a task's work, and the landing of its
-- branch.
pub mod Footprint
pub mod Calls
pub mod Order
use Prim.Native.String.{◌++◌ as ◌<>◌}
use lazybones.Prelude.{
  ℕ, String, Option, none, some, Bool, true, false, not, List, [], ◌∷◌, Outcome, ok, err,
  if◌then◌else◌, unwrap_or, trim, decimal, ◌==◌,
}
use lazybones.Store.Task.Model.{Task}
use lazybones.Engine.Config.{EngineConfig, MergeMode, fast_forward, merge, pr}
use lazybones.Engine.Effective.{EffectiveGit}
use lazybones.Engine.Commands.{git, GitOut}
use lazybones.Engine.Program.{perform, ◌>>=◌ as ◌then◌}
use lazybones.Engine.Program.Fallible.{Attempt, ◌>>=◌, ◌>>◌, succeed, bail}

-- A call that fails with a text before the error output, unless it exits zero.
abbrev pub require_ok : (failed : String) → GitOut → Attempt (Unit {0})
require_ok failed out = if out.ok then succeed tt else bail (failed <> out.stderr)

unfoldable pub rev_parse : (repo refname : String) → Attempt String
rev_parse repo refname = do
  out ← perform (git repo ("rev-parse" ∷ refname ∷ []))
  require_ok ("git rev-parse " <> refname <> " failed: ") out
  succeed out.stdout

unfoldable pub checkout : (repo branch : String) → Attempt (Unit {0})
checkout repo branch = do
  out ← perform (git repo ("checkout" ∷ branch ∷ []))
  require_ok ("git checkout " <> branch <> " failed: ") out

-- `.map(|o| o.ok).unwrap_or(false)`
abbrev pub exits_zero : Outcome String GitOut → Bool
exits_zero (ok out) = out.ok
exits_zero (err e) = false

abbrev pub push_to : (repo remote refname : String) → (has_remote : Bool) → Attempt (Unit {0})
push_to repo remote refname false = succeed tt
push_to repo remote refname true = do
  out ← perform (git repo ("push" ∷ remote ∷ refname ∷ []))
  require_ok ("git push " <> remote <> " " <> refname <> " failed: ") out

-- A remote that is not configured is skipped.
unfoldable pub push : (repo remote refname : String) → Attempt (Unit {0})
push repo remote refname = perform (git repo ("remote" ∷ "get-url" ∷ remote ∷ [])) then λ probe.
    push_to repo remote refname (exits_zero probe)

unfoldable pub push_branch : (repo remote branch : String) → Attempt (Unit {0})
unfolding push
push_branch repo remote branch = push repo remote branch

unfoldable pub head_sha : Task → (repo branch : String) → Attempt String
unfolding rev_parse
head_sha task repo branch = rev_parse (unwrap_or task.worktree repo) branch

-- The integration of a branch into the base branch of the main checkout.
abbrev pub integrate : EffectiveGit → EngineConfig → (branch flag : String) → Attempt String
integrate eff cfg branch flag = do
  checkout eff.repo eff.base_branch
  out ← perform (git eff.repo ("merge" ∷ flag ∷ branch ∷ []))
  require_ok ("git merge of " <> branch <> " into " <> eff.base_branch <> " failed: ") out
  push eff.repo cfg.remote eff.base_branch
  rev_parse eff.repo "HEAD"

abbrev pub land_branch :
    Task → EffectiveGit → EngineConfig → (branch : String) → MergeMode → Attempt String
land_branch task eff cfg branch pr = do
  push (unwrap_or task.worktree eff.repo) cfg.remote branch
  head_sha task eff.repo branch
land_branch task eff cfg branch fast_forward = integrate eff cfg branch "--ff-only"
land_branch task eff cfg branch merge = integrate eff cfg branch "--no-edit"

abbrev pub land_from : Task → EffectiveGit → EngineConfig → Option String → Attempt String
land_from task eff cfg none = bail ("task " <> task.id <> " has no branch to merge")
land_from task eff cfg (some branch) = land_branch task eff cfg branch eff.landing

unfoldable pub land : Task → EffectiveGit → EngineConfig → Attempt String
unfolding push checkout rev_parse head_sha
land task eff cfg = land_from task eff cfg task.branch

-- The message of the commit, with the place of the task in its workflow.
unfoldable pub commit_message : Task → (progress : Option (ℕ × ℕ)) → String
commit_message task none = "task(" <> task.id <> "): " <> task.title
commit_message task (some (n, total)) =
    task.title <> " — task " <> decimal n <> " completed of " <> decimal total

-- After the staging: no commit where nothing is staged.
abbrev pub commit_staged :
    (worktree : String) → Task → (progress : Option (ℕ × ℕ)) → GitOut → Attempt (Option String)
commit_staged worktree task progress staged = if staged.ok then succeed none else do
  commit ← perform (git worktree ("commit" ∷ "-m" ∷ commit_message task progress ∷ []))
  require_ok ("git commit in " <> worktree <> " failed: ") commit
  sha ← rev_parse worktree "HEAD"
  succeed (some sha)

-- The answer of the call that unstages the settings is dropped.
unfoldable pub commit_worktree :
    (worktree : String) → Task → (progress : Option (ℕ × ℕ)) → Attempt (Option String)
unfolding rev_parse commit_message
commit_worktree worktree task progress = do
  add ← perform (git worktree ("add" ∷ "-A" ∷ []))
  require_ok ("git add -A in " <> worktree <> " failed: ") add
  perform (git worktree ("reset" ∷ "-q" ∷ "--" ∷ ".claude/settings.json" ∷ [])) then λ _. succeed tt
  staged ← perform (git worktree ("diff" ∷ "--cached" ∷ "--quiet" ∷ []))
  commit_staged worktree task progress staged

unfoldable pub branch_has_commits : (worktree base branch : String) → Attempt Bool
branch_has_commits worktree base branch = do
  out ← perform (git worktree ("rev-list" ∷ "--count" ∷ (base <> ".." <> branch) ∷ []))
  succeed (if not out.ok then true else not (trim out.stdout == "0"))

-- Without a commit of the claim, the head counts as moved.
unfoldable pub head_advanced : (worktree : String) → (base_commit : Option String) → Attempt Bool
unfolding rev_parse
head_advanced worktree none = succeed true
head_advanced worktree (some base) = do
  head ← rev_parse worktree "HEAD"
  succeed (not (trim head == trim base))
