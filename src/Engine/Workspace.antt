-- ===== src/Engine/Workspace.antt =====
-- crates/lazybones-engine/src/scheduler/preflight.rs: the test of a workspace before a workflow starts.
pub mod Ready
use Prim.Native.Char.{code}
use Prim.Native.String.{◌++◌ as ◌<>◌}
use lazybones.Prelude.{
  String, Bool, false, not, ◌&&◌, List, [], ◌∷◌, Outcome, ok, err, if◌then◌else◌, nat_eq, trim,
  trim_start_matches, ◌==◌,
}
use lazybones.Engine.Commands.{GitOut, git, is_dir}
use lazybones.Engine.Program.{Program, perform, return, ◌>>=◌}

-- The part of a path in front of its first slash.
abbrev before_slash : String → String
before_slash String.[] = String.[]
before_slash (String.◌∷◌ c s) =
    let rest = before_slash s in if nat_eq (code c) 0x2f then String.[] else String.◌∷◌ c rest

-- The first part of a path that is not empty, or the path.
unfoldable pub state_dir : (worktree_root : String) → String
state_dir worktree_root =
    let top = before_slash (trim_start_matches (nat_eq 0x2f) worktree_root) in
    if top == "" then worktree_root else top

abbrev pub is_work_tree : Outcome String GitOut → Bool
is_work_tree (ok o) = o.ok && (trim o.stdout == "true")
is_work_tree (err e) = false

abbrev pub is_ignored : Outcome String GitOut → Bool
is_ignored (ok o) = o.ok
is_ignored (err e) = false

abbrev pub no_dir : (repo : String) → String
no_dir repo =
    "repo path " <> repo
    <> " does not exist — set workspace.repo to an absolute path to a git checkout"

abbrev pub no_work_tree : (repo : String) → String
no_work_tree repo =
    "repo " <> repo
    <> " is not a git work tree — the daemon provisions task worktrees with `git worktree add`, which needs a real repo"

abbrev pub not_ignored : (repo base_branch worktree_root : String) → String
unfolding state_dir
not_ignored repo base_branch worktree_root =
    let dir = state_dir worktree_root in
    "the daemon writes its db and every task worktree under " <> repo <> "/" <> dir <> "/, but `"
    <> dir
    <> "/` is not gitignored — a task's `git add` will stage daemon state into its branch and corrupt the merge into `"
    <> base_branch <> "`. Add `" <> dir <> "/` to " <> repo
    <> "/.gitignore and commit it, then start."

abbrev pub check_ignored : (repo base_branch worktree_root : String) → Program (List String)
check_ignored repo base_branch worktree_root = do
  out ← perform (git repo ("check-ignore" ∷ "-q" ∷ worktree_root ∷ []))
  return (if is_ignored out then [] else not_ignored repo base_branch worktree_root ∷ [])

abbrev pub check_tree : (repo base_branch worktree_root : String) → Program (List String)
check_tree repo base_branch worktree_root = do
  out ← perform (git repo ("rev-parse" ∷ "--is-inside-work-tree" ∷ []))
  if is_work_tree out
      then check_ignored repo base_branch worktree_root
      else return (no_work_tree repo ∷ [])

-- The problems of a workspace: none if it is safe to start.
unfoldable pub workspace_preflight :
    (repo base_branch worktree_root : String) → Program (List String)
workspace_preflight repo base_branch worktree_root = do
  found ← perform (is_dir repo)
  if not found then return (no_dir repo ∷ []) else check_tree repo base_branch worktree_root
