-- ===== src/Engine/Landing/Footprint.antt =====
-- The commands of a landing are all commands of `git`.
use lazybones.Prelude.{
  ◌≡◌, refl, ℕ, String, Option, none, some, Bool, true, false, Outcome, by_test, List, [], ◌∷◌,
}
use lazybones.Store.Task.Model.{Task}
use lazybones.Engine.Commands.{Command, git, GitOut}
use lazybones.Engine.Program.Fallible.{Attempt, or_fail}
use lazybones.Engine.Program.Within.{Within, try-Within, or_fail-Within}
use lazybones.Engine.Landing.{
  require_ok, rev_parse, checkout, exits_zero, push_to, push, push_branch, commit_staged,
  commit_worktree, branch_has_commits, head_advanced,
}

abbrev pub IsGit : Command → Type 0
IsGit c = (repo : String) × (args : List String) × (c ≡ git repo args)

pub require_ok-Within :
    (K : Command → Type 0) (failed : String) (out : GitOut) → Within K (require_ok failed out)
require_ok-Within K failed out = by_test (Within K) out.ok (λ _. tt) (λ _. tt)

-- One call of `git`, and what comes after it.
pub called :
    {B : Type 0} (repo : String) (args : List String) (f : GitOut → Attempt B)
    → ((out : GitOut) → Within IsGit (f out))
    → IsGit (git repo args) × ((x : Outcome String GitOut) → Within IsGit (or_fail f x))
called repo args f k = ((repo, args, refl), or_fail-Within IsGit f k)

pub rev_parse-Within : (repo refname : String) → Within IsGit (rev_parse repo refname)
unfolding rev_parse
rev_parse-Within repo refname =
    called _ _ _
      (λ out. try-Within IsGit (require_ok _ out) _ (require_ok-Within IsGit _ out) (λ _. tt))

pub checkout-Within : (repo branch : String) → Within IsGit (checkout repo branch)
unfolding checkout
checkout-Within repo branch = called _ _ _ (λ out. require_ok-Within IsGit _ out)

push_to-Within :
    (repo remote refname : String) (b : Bool) → Within IsGit (push_to repo remote refname b)
push_to-Within repo remote refname false = tt
push_to-Within repo remote refname true = called _ _ _ (λ out. require_ok-Within IsGit _ out)

pub push-Within : (repo remote refname : String) → Within IsGit (push repo remote refname)
unfolding push
push-Within repo remote refname = (
  (repo, "remote" ∷ "get-url" ∷ remote ∷ [], refl),
  λ probe. push_to-Within repo remote refname (exits_zero probe),
)

pub push_branch-Within :
    (repo remote branch : String) → Within IsGit (push_branch repo remote branch)
unfolding push_branch
push_branch-Within repo remote branch = push-Within repo remote branch

commit_staged-Within :
    (worktree : String) (task : Task) (progress : Option (ℕ × ℕ)) (staged : GitOut)
    → Within IsGit (commit_staged worktree task progress staged)
commit_staged-Within worktree task progress staged =
    by_test (Within IsGit) staged.ok (λ _. tt)
      (λ _. called _ _ _ (λ out.
        try-Within IsGit (require_ok _ out) _ (require_ok-Within IsGit _ out) (λ _.
          try-Within IsGit (rev_parse worktree "HEAD") _ (rev_parse-Within worktree "HEAD")
            (λ _. tt))))

pub commit_worktree-Within :
    (worktree : String) (task : Task) (progress : Option (ℕ × ℕ))
    → Within IsGit (commit_worktree worktree task progress)
unfolding commit_worktree
commit_worktree-Within worktree task progress = called _ _ _ (λ out.
    try-Within IsGit (require_ok _ out) _ (require_ok-Within IsGit _ out) (λ _. (
      (worktree, "reset" ∷ "-q" ∷ "--" ∷ ".claude/settings.json" ∷ [], refl),
      λ reset. called _ _ _ (λ staged. commit_staged-Within worktree task progress staged),
    )))

pub branch_has_commits-Within :
    (worktree base branch : String) → Within IsGit (branch_has_commits worktree base branch)
unfolding branch_has_commits
branch_has_commits-Within worktree base branch = called _ _ _ (λ out. tt)

pub head_advanced-Within :
    (worktree : String) (base_commit : Option String)
    → Within IsGit (head_advanced worktree base_commit)
unfolding head_advanced
head_advanced-Within worktree none = tt
head_advanced-Within worktree (some base) =
    try-Within IsGit (rev_parse worktree "HEAD") _ (rev_parse-Within worktree "HEAD") (λ _. tt)
