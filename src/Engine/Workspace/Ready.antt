-- ===== src/Engine/Workspace/Ready.antt =====
-- crates/lazybones-engine/src/scheduler/preflight.rs: when a workspace is found safe to start.
use lazybones.Prelude.{
  String, Bool, true, false, not, ◌≡◌, refl, ◌↔◌, inl, inr, List, [], ◌∷◌, Outcome, ok, err,
  if◌then◌else◌, arith, trim, eq_iff, by_test, Bool-cases,
}
use lazybones.Engine.Commands.{Command, Answer, GitOut, git, is_dir}
use lazybones.Engine.Program.{return}
use lazybones.Engine.Program.Obeys.{Protocol, Obeys}
use lazybones.Engine.Workspace.{
  is_work_tree, is_ignored, no_dir, no_work_tree, not_ignored, check_ignored, check_tree,
  workspace_preflight,
}

-- What the world has answered so far: nothing, whether the repository is a directory, then what `git`
-- said of the work tree, and then of the root of the worktrees.
pub data Stage : Type 0 where
  unvisited : Stage
  visited : (found : Bool) → Stage
  probed : (inside : Outcome String GitOut) → Stage
  checked : (inside ignored : Outcome String GitOut) → Stage

-- The call exited zero.
abbrev Exits : Outcome String GitOut → Type 0
Exits (ok o) = o.ok ≡ true
Exits (err e) = ⊥

-- The call exited zero and printed `true`.
abbrev SaysTrue : Outcome String GitOut → Type 0
SaysTrue (ok o) = (o.ok ≡ true) × (trim o.stdout ≡ "true")
SaysTrue (err e) = ⊥

abbrev MayAsk : (repo worktree_root : String) → Stage → Command → Type 0
MayAsk repo root unvisited (is_dir path) = path ≡ repo
MayAsk repo root (visited found) (git dir args) =
    (found ≡ true) × (dir ≡ repo) × (args ≡ "rev-parse" ∷ "--is-inside-work-tree" ∷ [])
MayAsk repo root (probed inside) (git dir args) =
    SaysTrue inside × (dir ≡ repo) × (args ≡ "check-ignore" ∷ "-q" ∷ root ∷ [])
MayAsk repo root _ _ = ⊥

abbrev next : Stage → (c : Command) → Answer c → Stage
next unvisited (is_dir path) found = visited found
next (visited found) (git dir args) out = probed out
next (probed inside) (git dir args) out = checked inside out
next s _ x = s

-- The repository is asked to be a directory, then a work tree, and then to ignore the state.
abbrev pub looks_at : (repo worktree_root : String) → Protocol
looks_at repo root = record { State = Stage; Allows = MayAsk repo root; after = next }

abbrev Passed : Stage → Type 0
Passed (checked inside ignored) = SaysTrue inside × Exits ignored
Passed _ = ⊥

abbrev pub IsVerdict : List String → Stage → Type 0
IsVerdict problems s = (problems ≡ []) ↔ Passed s

is_work_tree_iff : (out : Outcome String GitOut) → (is_work_tree out ≡ true) ↔ SaysTrue out
is_work_tree_iff (err e) = (λ h. ground arith, λ h. absurd h)
is_work_tree_iff (ok o) = (
  λ h. ground (arith, eq_iff (trim o.stdout) "true"),
  λ h. ground (arith, eq_iff (trim o.stdout) "true"),
)

is_ignored_iff : (out : Outcome String GitOut) → (is_ignored out ≡ true) ↔ Exits out
is_ignored_iff (err e) = (λ h. ground arith, λ h. absurd h)
is_ignored_iff (ok o) = (λ h. h, λ h. h)

module _ (repo base_branch root : String) where
  abbrev p : Protocol
  p = looks_at repo root

  failing : (problem : String) (s : Stage) → ¬ Passed s → IsVerdict (problem ∷ []) s
  failing problem s h = (λ e. ground arith, λ passed. absurd (h passed))

  ignored-Obeys :
      (inside : Outcome String GitOut)
      → SaysTrue inside
      → Obeys p (check_ignored repo base_branch root) (probed inside) IsVerdict
  ignored-Obeys inside says = (
    (says, refl, refl),
    λ out.
        let problem = not_ignored repo base_branch root in
        elim (Bool-cases (is_ignored out)) [
          | inl good ↦ rw good ((λ e. (says, (is_ignored_iff out).0 good), λ e. refl))
          | inr bad ↦ rw bad (
              failing problem (checked inside out)
                (λ passed. ground (arith, (is_ignored_iff out).1 (passed.1))))
        ],
  )

  tree-Obeys :
      (out : Outcome String GitOut)
      → Obeys p
          (if is_work_tree out
            then check_ignored repo base_branch root
            else return (no_work_tree repo ∷ []))
          (probed out)
          IsVerdict
  tree-Obeys out =
      by_test (λ m. Obeys p m (probed out) IsVerdict) (is_work_tree out)
        (λ yes. ignored-Obeys out ((is_work_tree_iff out).0 yes))
        (λ no. failing (no_work_tree repo) (probed out) (λ h. h))

  directory-Obeys :
      (found : Bool)
      → Obeys p
          (if not found then return (no_dir repo ∷ []) else check_tree repo base_branch root)
          (visited found)
          IsVerdict
  directory-Obeys true = ((refl, refl, refl), λ out. tree-Obeys out)
  directory-Obeys false = failing (no_dir repo) (visited false) (λ h. h)

-- Whatever the world answers, the test of a workspace asks whether the repository is a directory, then,
-- if it is, whether it is a work tree of `git`, and then, if `git` exits zero and prints `true`, whether
-- `git` ignores the root of the worktrees; it finds no problem exactly if it has asked all three and
-- the last call exited zero too.
pub workspace_preflight-Obeys :
    (repo base_branch root : String)
    → Obeys (looks_at repo root) (workspace_preflight repo base_branch root) unvisited IsVerdict
unfolding workspace_preflight
workspace_preflight-Obeys repo base_branch root =
    (refl, λ found. directory-Obeys repo base_branch root found)
