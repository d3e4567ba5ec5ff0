-- ===== src/Store/Tests/Tasks.antt =====
-- Tasks on their way through the lifecycle.
use lazybones.Prelude.{
  ◌↔◌, ◌≢◌, String, none, some, List, [], ◌∷◌, ◌≡◌, ◌⊎◌, inl, refl, Outcome, ok, err, true, any,
  option_map,
}
use lazybones.Store.Error.{StoreError}
use lazybones.Store.Event.{Event}
use lazybones.Store.Surreal.{Contents}
use lazybones.Store.Task.Status.{
  ready, done, running, Status, pending, gating, can_transition, is_terminal,
}
use lazybones.Store.Task.Model.{Task, seed}
use lazybones.Store.Task.Row.{from_task, into_task}
use lazybones.Store.Task.Transition.{
  Transition, make_ready, claim, gate, finish, block, revive, target, is_legal, apply_side_data,
}
use lazybones.Store.RoundTrip.{into_task-from_task}
use lazybones.Store.Verbs.{transition_task, reset_task, upsert_task, reimported}
use lazybones.Store.Verbs.Post.{Post}
use lazybones.Store.Verbs.Moves.{
  Moved, NotMoved, WasReset, NotReset, moved_task, with_task, transition_task-Post, reset_task-Post,
}
use lazybones.Store.Verbs.Reimport.{
  imported, upsert_task-Post, reimported-seed, reimported-not_IsConsistent,
}
use lazybones.Store.Lifecycle.{IsConsistent, Reach, here, next, moves, seed-Reach-IsConsistent}
use lazybones.Store.Edges.{
  follow, is_claim, is_gate, is_finish, follow-done_lem, is_legal-revive, KeepsSpec,
  moved_task-KeepsSpec,
}
use lazybones.Store.Tests.Memory.{memory, memory-IsDocumented, no_rows}

abbrev pub fix_task : Task
fix_task = seed "fix" "import" "Fix it" "Fix the parser." ("base" ∷ []) [] none

abbrev pub noon : String
noon = "2026-01-01T12:00:00Z"

abbrev claim_fix : Transition
claim_fix = claim "s-1" "/wt/fix" "lazybones/fix" (some "abc123")

abbrev running_fix : Task
running_fix = moved_task (moved_task fix_task make_ready noon) claim_fix noon

abbrev pub one_task : Contents
one_task = with_task no_rows "fix" running_fix

into_task-from_task_example : into_task (from_task running_fix) ≡ running_fix
into_task-from_task_example = into_task-from_task running_fix

transition_task-Post_example :
    Post memory.contents
      (transition_task memory "fix" gate "loop" one_task)
      (λ r c. Moved one_task "fix" gate "loop" r.0 r.1 c)
      (NotMoved one_task "fix" gate)
transition_task-Post_example =
    transition_task-Post memory memory-IsDocumented "fix" gate "loop" one_task

reset_task-Post_example :
    Post memory.contents
      (reset_task memory "fix" "admin" one_task)
      (λ r c. WasReset one_task "fix" "admin" r.0 r.1 c)
      (NotReset one_task "fix")
reset_task-Post_example = reset_task-Post memory memory-IsDocumented "fix" "admin" one_task

upsert_task-Post_example :
    Post memory.contents
      (upsert_task memory fix_task one_task)
      (λ t c.
        (t ≡ imported (option_map into_task (one_task.tasks "fix")) fix_task)
        × (c ≡ with_task one_task "fix" t))
      (λ e c. c ≡ one_task)
unfolding seed
upsert_task-Post_example = upsert_task-Post memory memory-IsDocumented fix_task one_task

reimported-seed_example :
    let u = reimported fix_task running_fix in
    (u.status ≡ running_fix.status)
    × (u.session ≡ running_fix.session)
    × (u.worktree ≡ running_fix.worktree)
    × (u.branch ≡ running_fix.branch)
    × (u.issue_url ≡ running_fix.issue_url)
    × (u.base_commit ≡ none)
    × (u.heartbeat ≡ none)
    × (u.started_at ≡ none)
    × (u.finished_at ≡ none)
    × (u.failed_at ≡ none)
    × (u.auto_retry ≡ none)
    × (u.retry_count ≡ 0)
    × (u.run_id ≡ none)
    × (u.template_id ≡ none)
reimported-seed_example =
    reimported-seed "fix" "import" "Fix it" "Fix the parser." ("base" ∷ []) [] none running_fix

reimported-not_IsConsistent_example : ¬ IsConsistent (reimported fix_task running_fix)
unfolding seed target apply_side_data
reimported-not_IsConsistent_example =
    reimported-not_IsConsistent "fix" "import" "Fix it" "Fix the parser." ("base" ∷ []) [] none
      running_fix (inl refl)

fix_Reach : Reach fix_task running_fix
unfolding seed is_legal can_transition target apply_side_data
fix_Reach =
    next (next here (moves fix_task make_ready noon refl))
      (moves (moved_task fix_task make_ready noon) claim_fix noon refl)

seed-Reach-IsConsistent_example : IsConsistent running_fix
seed-Reach-IsConsistent_example =
    seed-Reach-IsConsistent "fix" "import" "Fix it" "Fix the parser." ("base" ∷ []) [] none
      running_fix fix_Reach

abbrev landing : List Transition
landing = make_ready ∷ claim_fix ∷ block "no" ∷ revive ∷ claim_fix ∷ gate ∷ finish "c0ffee" ∷ []

follow-done_lem_example :
    (any is_claim landing ≡ true) × (any is_gate landing ≡ true) × (any is_finish landing ≡ true)
unfolding follow is_legal can_transition target
follow-done_lem_example = follow-done_lem landing refl refl

moved_task-KeepsSpec_example :
    KeepsSpec running_fix (moved_task running_fix gate noon)
    × ((running_fix.started_at ≡ none)
        ⊎ ((moved_task running_fix gate noon).started_at ≡ running_fix.started_at))
    × ((is_claim gate ≡ true)
        ⊎ (((moved_task running_fix gate noon).worktree ≡ running_fix.worktree)
            × ((moved_task running_fix gate noon).branch ≡ running_fix.branch)
            × ((moved_task running_fix gate noon).base_commit ≡ running_fix.base_commit)))
    × ((is_finish gate ≡ true) ⊎ ((moved_task running_fix gate noon).commit ≡ running_fix.commit))
moved_task-KeepsSpec_example = moved_task-KeepsSpec running_fix gate noon

abbrev answer : Outcome StoreError (Task × Event) → Status
answer (ok (t, event)) = t.status
answer (err e) = pending

-- The transition of the first example is made: the answered task is gating.
answered_status : answer (transition_task memory "fix" gate "loop" one_task).0 ≡ gating
unfolding transition_task seed is_legal can_transition target is_terminal from_task into_task
    apply_side_data
answered_status = refl

is_legal-revive_example : (is_legal running revive ≡ true) ↔ ((running ≢ ready) × (running ≢ done))
is_legal-revive_example = is_legal-revive running
