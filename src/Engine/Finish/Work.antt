-- ===== src/Engine/Finish/Work.antt =====
-- From a gate that let the work pass to the commit that the landing names: all commands of `git`.
use lazybones.Prelude.{
  String, ◌≡◌, refl, sym, subst, Bool, not, Option, none, some, [], ◌∷◌, Outcome, ok, err,
  if◌then◌else◌, unwrap_or, by_test, is_none, ◌||◌,
}
use lazybones.Store.Task.WorktreeMode
use lazybones.Store.Task.WorktreeMode.{mode_eq}
use lazybones.Store.Task.Model.{Task}
use lazybones.Engine.Config.{EngineConfig, MergeMode, fast_forward, merge, pr}
use lazybones.Engine.Effective.{EffectiveGit}
use lazybones.Engine.Commands.{git}
use lazybones.Engine.Program.{perform}
use lazybones.Engine.Program.Fallible.{Attempt, ◌>>=◌ as ◌try◌, ◌>>◌ as ◌after_it◌}
use lazybones.Engine.Program.Obeys.{Obeys, Obeys_mono}
use lazybones.Engine.Program.Within.{Within, bind-Within, Within-Obeys}
use lazybones.Engine.Program.Settles.{Settles, try-Obeys}
use lazybones.Engine.Landing.{
  land, land_from, land_branch, integrate, checkout, push, head_sha, rev_parse, require_ok,
  push_branch, branch_has_commits, head_advanced,
}
use lazybones.Engine.Landing.Footprint.{
  IsGit, called, checkout-Within, push-Within, require_ok-Within, push_branch-Within,
  head_advanced-Within, branch_has_commits-Within,
}
use lazybones.Engine.Landing.Calls.{rev_parse-Obeys}
use lazybones.Engine.Worktree.{teardown, configured_mode, remove_tree}
use lazybones.Engine.Finish.{reason_after_commit, reason_if_clean, by_branch, back_up, or_true}
use lazybones.Engine.Finish.Green.{Seen, IsReady, git_allowed, p}

by_branch-Within :
    (worktree : String) (eff : EffectiveGit) (task : Task)
    → Within IsGit (by_branch worktree eff task)
by_branch-Within worktree eff task =
    by_test (Within IsGit) (not (is_none task.base_commit)) (λ _. tt)
      (λ _.
        bind-Within IsGit (branch_has_commits worktree eff.base_branch (unwrap_or task.branch "")) _
          (branch_has_commits-Within worktree eff.base_branch (unwrap_or task.branch ""))
          (λ has. by_test (Within IsGit) (or_true has) (λ _. tt) (λ _. tt)))

if_clean-Within :
    (worktree : String) (eff : EffectiveGit) (task : Task) (advanced : Outcome String Bool)
    → Within IsGit (reason_if_clean worktree eff task advanced)
unfolding reason_if_clean
if_clean-Within worktree eff task advanced =
    by_test (Within IsGit) (not (or_true advanced)) (λ _. tt)
      (λ _. by_branch-Within worktree eff task)

pub reason-Within :
    (worktree : String) (eff : EffectiveGit) (task : Task)
    (committed : Outcome String (Option String))
    → Within IsGit (reason_after_commit worktree eff task committed)
unfolding reason_after_commit
reason-Within worktree eff task (ok (some sha)) = tt
reason-Within worktree eff task (ok none) =
    bind-Within IsGit (head_advanced worktree task.base_commit) _
      (head_advanced-Within worktree task.base_commit) (if_clean-Within worktree eff task)
reason-Within worktree eff task (err e) = tt

pub back_up-Within :
    (worktree remote : String) (branch : Option String)
    → Within IsGit (back_up worktree remote branch)
unfolding back_up
back_up-Within worktree remote none = tt
back_up-Within worktree remote (some branch) =
    bind-Within IsGit (push_branch worktree remote branch) _
      (push_branch-Within worktree remote branch) (λ _. tt)

remove_tree-Within :
    (eff : EffectiveGit) (worktree : Option String) → Within IsGit (remove_tree eff worktree)
remove_tree-Within eff none = tt
remove_tree-Within eff (some path) = called _ _ _ (λ out. tt)

pub teardown-Within :
    (task : Task) (eff : EffectiveGit) (cfg : EngineConfig) → Within IsGit (teardown task eff cfg)
unfolding teardown
teardown-Within task eff cfg =
    by_test (Within IsGit)
      (mode_eq (configured_mode eff cfg) WorktreeMode.branch
        || mode_eq (configured_mode eff cfg) WorktreeMode.shared)
      (λ _. tt) (λ _. remove_tree-Within eff task.worktree)

module _ (task : Task) (eff : EffectiveGit) where
  abbrev Anything : Seen → Type 0
  Anything s = Unit

  -- The commit of a landing that succeeds is the one that `git` named last.
  abbrev pub Names : String → Seen → Type 0
  Names sha s = IsReady eff.gate s × (s.head ≡ some sha)

  abbrev pub Lands : Outcome String String → Seen → Type 0
  Lands = Settles (p task eff) Names Anything

  ready-Settles :
      {A : Type 0} (a : Outcome String A) (s : Seen)
      → IsReady eff.gate s
      → Settles (p task eff) (λ _ t. IsReady eff.gate t) Anything a s
  ready-Settles (ok a) s h = h
  ready-Settles (err e) s h = tt

  -- Commands of `git`, and what comes after them.
  past-Obeys :
      {A : Type 0} (m : Attempt A) (f : A → Attempt String) (s : Seen)
      → Within IsGit m
      → IsReady eff.gate s
      → ((a : A) (t : Seen) → IsReady eff.gate t → Obeys (p task eff) (f a) t Lands)
      → Obeys (p task eff) (m try f) s Lands
  past-Obeys m f s w h k =
      try-Obeys (p task eff) m f s (λ _ t. IsReady eff.gate t) Names Anything
        (Obeys_mono (p task eff) m s (λ _ t. IsReady eff.gate t) _
          (Within-Obeys IsGit (p task eff) (IsReady eff.gate) (git_allowed task eff) m s h w)
          ready-Settles)
        k

  named-Obeys :
      (repo refname : String) (s : Seen)
      → IsReady eff.gate s
      → Obeys (p task eff) (rev_parse repo refname) s Lands
  named-Obeys repo refname s h =
      rev_parse-Obeys (p task eff) Anything repo refname Names s tt (λ x. tt)
        (λ out good.
          subst (λ b. Names out.stdout (if b then record s { head = some out.stdout } else s))
            (sym good) (h, refl))

  pushed-Obeys :
      (cfg : EngineConfig) (s : Seen)
      → IsReady eff.gate s
      → Obeys
          (p task eff)
          (push eff.repo cfg.remote eff.base_branch after_it rev_parse eff.repo "HEAD")
          s
          Lands
  pushed-Obeys cfg s h =
      past-Obeys (push eff.repo cfg.remote eff.base_branch) _ s
        (push-Within eff.repo cfg.remote eff.base_branch) h (λ _. named-Obeys eff.repo "HEAD")

  integrate-Obeys :
      (cfg : EngineConfig) (branch flag : String) (s : Seen)
      → IsReady eff.gate s
      → Obeys (p task eff) (integrate eff cfg branch flag) s Lands
  integrate-Obeys cfg branch flag s h =
      past-Obeys (checkout eff.repo eff.base_branch) _ s (checkout-Within eff.repo eff.base_branch)
        h
        (λ _ t h'.
          past-Obeys (perform (git eff.repo ("merge" ∷ flag ∷ branch ∷ []))) _ t
            ((eff.repo, "merge" ∷ flag ∷ branch ∷ [], refl), λ x. tt) h'
            (λ out t' h''.
              past-Obeys (require_ok _ out) _ t' (require_ok-Within IsGit _ out) h''
                (λ _. pushed-Obeys cfg)))

  land_branch-Obeys :
      (cfg : EngineConfig) (branch : String) (mode : MergeMode) (s : Seen)
      → IsReady eff.gate s
      → Obeys (p task eff) (land_branch task eff cfg branch mode) s Lands
  unfolding head_sha
  land_branch-Obeys cfg branch pr s h =
      past-Obeys (push (unwrap_or task.worktree eff.repo) cfg.remote branch) _ s
        (push-Within (unwrap_or task.worktree eff.repo) cfg.remote branch) h
        (λ _ t h'. named-Obeys (unwrap_or task.worktree eff.repo) branch t h')
  land_branch-Obeys cfg branch fast_forward s h = integrate-Obeys cfg branch "--ff-only" s h
  land_branch-Obeys cfg branch merge s h = integrate-Obeys cfg branch "--no-edit" s h

  land_from-Obeys :
      (cfg : EngineConfig) (branch : Option String) (s : Seen)
      → IsReady eff.gate s
      → Obeys (p task eff) (land_from task eff cfg branch) s Lands
  land_from-Obeys cfg none s h = tt
  land_from-Obeys cfg (some branch) s h = land_branch-Obeys cfg branch eff.landing s h

  pub land-Obeys :
      (cfg : EngineConfig) (s : Seen)
      → IsReady eff.gate s
      → Obeys (p task eff) (land task eff cfg) s Lands
  unfolding land
  land-Obeys cfg s h = land_from-Obeys cfg task.branch s h
