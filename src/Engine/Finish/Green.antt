-- ===== src/Engine/Finish/Green.antt =====
-- What has been seen of the world when a task is reported done.
use lazybones.Prelude.{
  String, ◌≡◌, refl, sym, subst, inl, inr, Bool, true, false, Option, none, some, List, [], ◌∷◌,
  ◌++◌, Outcome, ok, err, if◌then◌else◌, unwrap_or, by_test, ◌==◌,
}
use lazybones.Store.Task.Model.{Task}
use lazybones.Store.Task.Transition as Intent
use lazybones.Store.Task.Transition.{Transition}
use lazybones.Engine.Effective.{EffectiveGit}
use lazybones.Engine.Commands.{
  Command, Answer, git, GitOut, sh, Output, gate_check, GateDecision, pass, transition,
  revive_with_guidance,
}
use lazybones.Engine.Program.Obeys.{Protocol, Obeys}
use lazybones.Engine.Program.Within.{Within-Obeys}
use lazybones.Engine.Block.{block}
use lazybones.Engine.Block.Footprint.{IsBlocking, block-Within}
use lazybones.Engine.Landing.Footprint.{IsGit}
use lazybones.Engine.Gate.Preflight.Rewrites.{Fits, IsRead}

-- The commands of the gate that exited zero, whether the extensions let the work pass after them,
-- and the commit that `git` named last.
pub record Seen : Type 0 where
  pub ran : List String
  pub passed : Bool
  pub head : Option String

abbrev pub unseen : Seen
unseen = record { ran = []; passed = false; head = none }

-- The work may be reported done: each command of the gate exited zero and the extensions let it pass.
abbrev pub IsReady : (gate : List String) → Seen → Type 0
IsReady gate s = Fits gate s.ran × (s.passed ≡ true)

abbrev pub MayMove : (gate : List String) → Seen → Transition → Type 0
MayMove gate s (Intent.finish commit) = IsReady gate s × (s.head ≡ some commit)
MayMove gate s (Intent.block reason) = Unit
MayMove gate s _ = ⊥

-- The commands of the gate run in the tree of the task, and only the task itself is moved.
abbrev pub MayAsk : Task → (gate : List String) → Seen → Command → Type 0
MayAsk task gate s (sh worktree cmd) = worktree ≡ unwrap_or task.worktree ""
MayAsk task gate s (gate_check t worktree) = (t ≡ task) × Fits gate s.ran
MayAsk task gate s (transition id intent by) = (id ≡ task.id) × MayMove gate s intent
MayAsk task gate s (revive_with_guidance id guide by bump) = id ≡ task.id
MayAsk task gate s _ = Unit

abbrev after_sh : Seen → (cmd : String) → Outcome String Output → Seen
after_sh s cmd (err e) = s
after_sh s cmd (ok out) = if out.success then record s { ran = s.ran ++ cmd ∷ [] } else s

abbrev after_check : Seen → GateDecision → Seen
after_check s pass = record s { passed = true }
after_check s _ = s

abbrev after_git : Seen → List String → Outcome String GitOut → Seen
after_git s (call ∷ args) (ok out) =
    if call == "rev-parse" then (if out.ok then record s { head = some out.stdout } else s) else s
after_git s _ _ = s

abbrev look : Seen → (c : Command) → Answer c → Seen
look s (sh worktree cmd) x = after_sh s cmd x
look s (gate_check t worktree) x = after_check s x
look s (git repo args) x = after_git s args x
look s _ x = s

-- A task is done only with a commit that `git` named last, after a gate that was green and
-- extensions that let it pass.
abbrev pub done_when_green : Task → EffectiveGit → Protocol
done_when_green task eff = record { State = Seen; Allows = MayAsk task eff.gate; after = look }

-- Nothing more is said.
abbrev pub Anyhow : {A : Type 0} → A → Seen → Type 0
Anyhow a s = Unit

module _ (task : Task) (eff : EffectiveGit) where
  abbrev pub p : Protocol
  p = done_when_green task eff

  git_keeps :
      (s : Seen) (args : List String) (x : Outcome String GitOut)
      → IsReady eff.gate s
      → IsReady eff.gate (after_git s args x)
  git_keeps s [] x h = h
  git_keeps s (call ∷ args) (err e) h = h
  git_keeps s (call ∷ args) (ok out) h =
      by_test (IsReady eff.gate) (call == "rev-parse")
        (λ _. by_test (IsReady eff.gate) out.ok (λ _. h) (λ _. h)) (λ _. h)

  -- The command is allowed, and what has been seen stays as the invariant says.
  abbrev Keeps : (Seen → Type 0) → Seen → Command → Type 0
  Keeps Inv s c = p.Allows s c × ((x : Answer c) → Inv (look s c x))

  pub git_allowed :
      (s : Seen) (c : Command) → IsReady eff.gate s → IsGit c → Keeps (IsReady eff.gate) s c
  git_allowed s c h (repo, args, e) =
      subst (Keeps (IsReady eff.gate) s) (sym e) (tt, λ x. git_keeps s args x h)

  blocking_allowed :
      (s : Seen) (c : Command) → Unit {0} → IsBlocking task.id c → Keeps (λ _. Unit) s c
  blocking_allowed s c h (inl (entry, e)) = subst (Keeps (λ _. Unit) s) (sym e) (tt, λ x. tt)
  blocking_allowed s c h (inr (inl (reason, actor, e))) =
      subst (Keeps (λ _. Unit) s) (sym e) ((refl, tt), λ x. tt)
  blocking_allowed s c h (inr (inr (guide, actor, e))) =
      subst (Keeps (λ _. Unit) s) (sym e) (refl, λ x. tt)

  pub block-Obeys :
      (to_lowercase : String → String) (reason actor : String) (s : Seen)
      → Obeys p (block to_lowercase task reason actor) s Anyhow
  block-Obeys to_lowercase reason actor s =
      Within-Obeys (IsBlocking task.id) p (λ _. Unit) blocking_allowed
        (block to_lowercase task reason actor) s tt (block-Within to_lowercase task reason actor)

  pub reads_allowed :
      (t : Seen) (c : Command) → t ≡ unseen → IsRead c → Keeps (λ t'. t' ≡ unseen) t c
  reads_allowed t c e (path, inl k) = subst (Keeps (λ t'. t' ≡ unseen) t) (sym k) (tt, λ x. e)
  reads_allowed t c e (path, inr (inl k)) = subst (Keeps (λ t'. t' ≡ unseen) t) (sym k) (tt, λ x. e)
  reads_allowed t c e (path, inr (inr k)) = subst (Keeps (λ t'. t' ≡ unseen) t) (sym k) (tt, λ x. e)
