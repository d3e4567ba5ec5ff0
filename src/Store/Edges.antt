-- ===== src/Store/Edges.antt =====
-- The lifecycle as a graph: which moves leave a status, and what lands a task.
use lazybones.Prelude.{
  ◌↔◌, refl, ◌≡◌, ◌≢◌, ◌⊎◌, Bool, true, false, String, Option, none, some, List, [], ◌∷◌, arith,
  any, if◌then◌else◌,
}
use lazybones.Store.Task.Status.{
  Status, pending, ready, running, gating, done, blocked, can_transition, is_terminal,
}
use lazybones.Store.Task.Model.{Task}
use lazybones.Store.Task.Transition.{
  Transition, make_ready, claim, gate, finish, block, reclaim, revive, external_done, target,
  is_legal, apply_side_data,
}
use lazybones.Store.Verbs.Moves.{moved_task}

abbrev pub is_claim : Transition → Bool
is_claim (claim s w b c) = true
is_claim _ = false

abbrev pub is_gate : Transition → Bool
is_gate gate = true
is_gate _ = false

abbrev pub is_finish : Transition → Bool
is_finish (finish c) = true
is_finish _ = false

abbrev pub is_external : Transition → Bool
is_external external_done = true
is_external _ = false

-- The status after a sequence of transitions, if each one is legal.
unfoldable pub follow : Status → List Transition → Option Status
follow s [] = some s
follow s (tr ∷ trs) = let rest = follow (target tr) trs in if is_legal s tr then rest else none

-- What is still ahead of a task that lands.
abbrev pub Ahead : Status → List Transition → Type 0
Ahead done trs = Unit
Ahead gating trs = any is_finish trs ≡ true
Ahead running trs = (any is_gate trs ≡ true) × (any is_finish trs ≡ true)
Ahead _ trs = (any is_claim trs ≡ true) × (any is_gate trs ≡ true) × (any is_finish trs ≡ true)

follow-Ahead :
    (s : Status) (trs : List Transition)
    → follow s trs ≡ some done
    → any is_external trs ≡ false
    → Ahead s trs
unfolding follow is_legal can_transition is_terminal target
follow-Ahead done trs h e = tt
follow-Ahead s [] h e = ground arith
follow-Ahead s (make_ready ∷ trs) h e = ground (arith, follow-Ahead ready trs)
follow-Ahead s (reclaim ∷ trs) h e = ground (arith, follow-Ahead ready trs)
follow-Ahead s (revive ∷ trs) h e = ground (arith, follow-Ahead ready trs)
follow-Ahead s (claim a b c d ∷ trs) h e = ground (arith, follow-Ahead running trs)
follow-Ahead s (gate ∷ trs) h e = ground (arith, follow-Ahead gating trs)
follow-Ahead s (finish c ∷ trs) h e = ground (arith, follow-Ahead done trs)
follow-Ahead s (block r ∷ trs) h e = ground (arith, follow-Ahead blocked trs)
follow-Ahead s (external_done ∷ trs) h e = ground arith

-- A sequence of legal transitions that takes a task from `pending` to `done`, none of them the
-- external completion, holds a claim, a gate and a finish.
pub follow-done_lem :
    (trs : List Transition)
    → follow pending trs ≡ some done
    → any is_external trs ≡ false
    → (any is_claim trs ≡ true) × (any is_gate trs ≡ true) × (any is_finish trs ≡ true)
follow-done_lem trs h e = follow-Ahead pending trs h e

-- No transition leaves `done`, and the only ones that leave `blocked` make the task ready.
pub is_legal-leaves :
    (s : Status) (tr : Transition)
    → is_legal s tr ≡ true
    → (s ≢ done) × ((s ≢ blocked) ⊎ (target tr ≡ ready))
unfolding is_legal can_transition is_terminal target
is_legal-leaves pending tr h = ground arith
is_legal-leaves s tr h = ground arith

-- A task becomes `done` only by a finish from `gating`, or by the external completion from a
-- status that is not terminal.
is_legal-lands :
    (s : Status) (tr : Transition)
    → is_legal s tr ≡ true
    → target tr ≡ done
    → ((s ≡ gating) × (is_finish tr ≡ true)) ⊎ ((is_terminal s ≡ false) × (is_external tr ≡ true))
unfolding is_legal can_transition is_terminal target
is_legal-lands s make_ready h e = ground arith
is_legal-lands s _ h e = ground arith

-- A revive is legal exactly from the statuses other than `ready` and `done`, so of a task that is
-- running or gating too.
pub is_legal-revive : (s : Status) → (is_legal s revive ≡ true) ↔ ((s ≢ ready) × (s ≢ done))
unfolding is_legal can_transition target
is_legal-revive ready = (λ h. ground arith, λ h. absurd (h.0 refl))
is_legal-revive done = (λ h. ground arith, λ h. absurd (h.1 refl))
is_legal-revive _ = (λ h. ground arith, λ h. refl)

-- What no transition changes.
pub record KeepsSpec (t u : Task) : Type 0 where
  pub same_id : u.id ≡ t.id
  pub same_run : u.run ≡ t.run
  pub same_title : u.title ≡ t.title
  pub same_spec : u.spec ≡ t.spec
  pub same_deps : u.deps ≡ t.deps
  pub same_owns : u.owns ≡ t.owns
  pub same_mode : u.worktree_mode ≡ t.worktree_mode
  pub same_run_id : u.run_id ≡ t.run_id
  pub same_tool : u.tool ≡ t.tool
  pub same_model : u.model ≡ t.model
  pub same_effort : u.effort ≡ t.effort
  pub same_trust : u.auto_trust_agent_folder ≡ t.auto_trust_agent_folder
  pub same_template : u.template_id ≡ t.template_id
  pub same_source : u.reuse_from ≡ t.reuse_from
  pub same_override : u.worktree_mode_override ≡ t.worktree_mode_override
  pub same_closing : u.issue_close_on_done ≡ t.issue_close_on_done
  pub same_synced : u.issue_synced_state ≡ t.issue_synced_state
  pub same_policy : u.auto_retry ≡ t.auto_retry
  pub same_cap : u.max_retries ≡ t.max_retries
  pub same_count : u.retry_count ≡ t.retry_count
  pub same_issue : u.issue_url ≡ t.issue_url

-- A transition keeps what was authored (the text, the graph, the agent's settings, the worktree's
-- mode and source), the links to run, template and issue, the retry policy and its count. A time that stands in
-- `started_at` stays. Worktree, branch and baseline are changed by claims alone, and the commit by
-- finishes alone.
pub moved_task-KeepsSpec :
    (t : Task) (tr : Transition) (at : String)
    → KeepsSpec t (moved_task t tr at)
      × ((t.started_at ≡ none) ⊎ ((moved_task t tr at).started_at ≡ t.started_at))
      × ((is_claim tr ≡ true)
          ⊎ (((moved_task t tr at).worktree ≡ t.worktree)
              × ((moved_task t tr at).branch ≡ t.branch)
              × ((moved_task t tr at).base_commit ≡ t.base_commit)))
      × ((is_finish tr ≡ true) ⊎ ((moved_task t tr at).commit ≡ t.commit))
unfolding apply_side_data target
moved_task-KeepsSpec t make_ready at = ground arith
moved_task-KeepsSpec t _ at = ground arith
