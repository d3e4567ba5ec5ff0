-- ===== src/Engine/Worktree/Footprint.antt =====
-- The commands that the provisioning of a tree asks: of `git`, and of the file system.
use lazybones.Prelude.{
  String, Bool, true, false, not, Option, none, some, List, Outcome, ok, err, by_test, or_else,
  join_path, ◌==◌,
}
use lazybones.Store.Task.WorktreeMode.{WorktreeMode}
use lazybones.Store.Task.Model.{Task}
use lazybones.Engine.Config.{EngineConfig}
use lazybones.Engine.Effective.{EffectiveGit}
use lazybones.Engine.Commands.{
  Command, git, is_dir, exists, create_dir_all, write_file, seed_claude_folder_trust,
}
use lazybones.Engine.Program.{perform, ◌>>=◌ as ◌then◌}
use lazybones.Engine.Program.Fallible.{Attempt, succeed, ◌>>=◌ as ◌try◌}
use lazybones.Engine.Program.Within.{Within, bind-Within, try-Within, or_fail-Within}
use lazybones.Engine.Landing.{require_ok}
use lazybones.Engine.Landing.Footprint.{require_ok-Within}
use lazybones.Engine.Worktree.{
  bootstrap_permissions, bootstrap_settings, trust_folder, after_create, Provisioned, branch_exists,
  reset_reused, reset_main, add_tree, adopt_tree, provision_keyed, reuse_tree, check_out_branch,
  provision_in, provision, effective_mode, own_branch,
}

-- A class of commands with those of the provisioning.
pub record HasTreeWork (K : Command → Type 0) : Type 0 where
  pub has_git : (repo : String) (args : List String) → K (git repo args)
  pub has_is_dir : (path : String) → K (is_dir path)
  pub has_exists : (path : String) → K (exists path)
  pub has_create : (path : String) → K (create_dir_all path)
  pub has_write : (path contents : String) → K (write_file path contents)
  pub has_trust : (path : String) → K (seed_claude_folder_trust path)

module _ (K : Command → Type 0) (has : HasTreeWork K) where
  created-Within :
      (dir : String) (made : Outcome String (Unit {0})) → Within K (after_create dir made)
  created-Within dir (ok made) = (has.has_write _ _, λ x. tt)
  created-Within dir (err e) = tt

  settings-Within : (repo worktree : String) → Within K (bootstrap_settings repo worktree)
  settings-Within repo worktree = (
    has.has_exists _,
    λ in_repo.
        by_test (Within K) in_repo (λ _. tt)
          (λ _. (
            has.has_exists _,
            λ in_tree.
                by_test (Within K) in_tree (λ _. tt)
                  (λ _. (has.has_create _, created-Within (join_path worktree ".claude"))),
          )),
  )

  trust-Within :
      (worktree : String) (auto_trust : Bool) → Within K (trust_folder worktree auto_trust)
  trust-Within worktree true = (has.has_trust worktree, λ x. tt)
  trust-Within worktree false = tt

  bootstrap-Within :
      (repo worktree tool : String) (auto_trust : Bool)
      → Within K (bootstrap_permissions repo worktree tool auto_trust)
  unfolding bootstrap_permissions
  bootstrap-Within repo worktree tool auto_trust =
      by_test (Within K) (not (tool == "claude")) (λ _. tt)
        (λ _.
          bind-Within K (trust_folder worktree auto_trust) _ (trust-Within worktree auto_trust)
            (λ u. settings-Within repo worktree))

  -- A tree that is in place gets its settings.
  placed-Within :
      (repo worktree tool : String) (auto_trust : Bool) (m : Attempt (Unit {0}))
      (tree : Provisioned)
      → Within K m
      → Within K
          (m try λ u. bootstrap_permissions repo worktree tool auto_trust then λ v. succeed tree)
  placed-Within repo worktree tool auto_trust m tree h = try-Within K m _ h (λ u.
      bind-Within K (bootstrap_permissions repo worktree tool auto_trust) _
        (bootstrap-Within repo worktree tool auto_trust) (λ v. tt))

  -- One call of `git` whose failure is an error.
  checked-Within :
      (repo : String) (args : List String) (failed : String)
      → Within K (perform (git repo args) try require_ok failed)
  checked-Within repo args failed =
      (has.has_git repo args, or_fail-Within K (require_ok failed) (require_ok-Within K failed))

  exists-Within : (repo name : String) → Within K (branch_exists repo name)
  unfolding branch_exists
  exists-Within repo name = (has.has_git _ _, or_fail-Within K _ (λ out. tt))

  add-Within :
      (task : Task) (eff : EffectiveGit) (path branch : String)
      → Within K (add_tree task eff path branch)
  unfolding add_tree
  add-Within task eff path branch =
      try-Within K (branch_exists eff.repo branch) _ (exists-Within eff.repo branch)
        (λ there. checked-Within eff.repo _ _)

  adopt-Within :
      (task : Task) (eff : EffectiveGit) (path branch : String)
      → Within K (adopt_tree task eff path branch)
  adopt-Within task eff path branch = (has.has_git _ _, λ head. checked-Within path _ _)

  keyed-Within :
      (mode : WorktreeMode) (task : Task) (eff : EffectiveGit) (cfg : EngineConfig)
      → Within K (provision_keyed mode task eff cfg)
  unfolding provision_keyed
  keyed-Within mode task eff cfg = (
    has.has_is_dir _,
    λ reused. (
      has.has_is_dir _,
      λ there. placed-Within eff.repo _ eff.tool eff.auto_trust_agent_folder _ _ (
          by_test (Within K) there (λ _. adopt-Within task eff _ _) (λ _. add-Within task eff _ _)),
    ),
  )

  reuse-Within :
      (task : Task) (eff : EffectiveGit) (path : Option String)
      → Within K (reuse_tree task eff path)
  unfolding reuse_tree
  reuse-Within task eff none = tt
  reuse-Within task eff (some path) = (
    has.has_is_dir path,
    λ there.
        by_test (Within K) (not there) (λ _. tt)
          (λ _.
            placed-Within eff.repo path eff.tool eff.auto_trust_agent_folder
              (reset_reused task eff path)
              (record { worktree = path; branch = own_branch task eff; reused = true })
              (checked-Within path _ _)),
  )

  branch-Within : (task : Task) (eff : EffectiveGit) → Within K (check_out_branch task eff)
  unfolding check_out_branch
  branch-Within task eff =
      placed-Within eff.repo eff.repo eff.tool eff.auto_trust_agent_folder (reset_main task eff)
        (record { worktree = eff.repo; branch = own_branch task eff; reused = false })
        (checked-Within eff.repo _ _)

  in_mode-Within :
      (mode : WorktreeMode) (task : Task) (eff : EffectiveGit) (cfg : EngineConfig)
      (reuse_path : Option String)
      → Within K (provision_in mode task eff cfg reuse_path)
  in_mode-Within WorktreeMode.new task eff cfg reuse_path =
      keyed-Within WorktreeMode.new task eff cfg
  in_mode-Within WorktreeMode.shared task eff cfg reuse_path =
      keyed-Within WorktreeMode.shared task eff cfg
  in_mode-Within WorktreeMode.reuse task eff cfg reuse_path =
      reuse-Within task eff (or_else reuse_path task.worktree)
  in_mode-Within WorktreeMode.branch task eff cfg reuse_path = branch-Within task eff

  pub provision-Within :
      (task : Task) (eff : EffectiveGit) (cfg : EngineConfig) (reuse_path : Option String)
      → Within K (provision task eff cfg reuse_path)
  unfolding provision
  provision-Within task eff cfg reuse_path =
      in_mode-Within (effective_mode task eff cfg) task eff cfg reuse_path
