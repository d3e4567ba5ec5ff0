-- ===== src/Store/Lifecycle.antt =====
-- What holds of a task on its way through the lifecycle, whatever verbs are applied to it. (The
-- re-import of `upsert_task` is apart: Verbs/Reimport.antt.)
use lazybones.Prelude.{ℕ, ◌≡◌, refl, true, String, Option, none, some, List, arith, is_some, subst}
use lazybones.Store.Task.Status.{
  Status, running, gating, done, blocked, can_transition, is_terminal,
}
use lazybones.Store.Task.RetryStrategy.{RetryStrategy}
use lazybones.Store.Task.Model.{Task, seed}
use lazybones.Store.Task.Transition.{
  Transition, make_ready, claim, gate, finish, block, reclaim, revive, external_done, target,
  is_legal, apply_side_data,
}
use lazybones.Store.Verbs.{TaskEdit, cleared, edited, linked, repoliced, bumped}
use lazybones.Store.Verbs.Moves.{moved_task}

-- What a status asks of the claim, of the times and of the reason: a task in flight has its claim
-- and its start, a finished one its time and no open failure, a blocked one its reason and time.
abbrev pub Asks :
    Status
    → (session worktree branch started_at finished_at failed_at reason : Option String) → Type 0
Asks running se wo br st fi fa re =
    (is_some se ≡ true) × (is_some wo ≡ true) × (is_some br ≡ true) × (is_some st ≡ true)
Asks gating se wo br st fi fa re =
    (is_some se ≡ true) × (is_some wo ≡ true) × (is_some br ≡ true) × (is_some st ≡ true)
Asks done se wo br st fi fa re = (is_some fi ≡ true) × (fa ≡ none)
Asks blocked se wo br st fi fa re = (is_some re ≡ true) × (is_some fa ≡ true)
Asks _ se wo br st fi fa re = Unit

abbrev pub IsConsistent : Task → Type 0
IsConsistent t =
    Asks t.status t.session t.worktree t.branch t.started_at t.finished_at t.failed_at t.reason

-- Every legal transition keeps a task consistent.
pub moved_task-IsConsistent :
    (s : Status) (t : Task) (transition : Transition) (at : String)
    → t.status ≡ s
    → is_legal s transition ≡ true
    → IsConsistent t
    → IsConsistent (moved_task t transition at)
unfolding is_legal can_transition is_terminal target apply_side_data
moved_task-IsConsistent s t make_ready at e l h = tt
moved_task-IsConsistent s t reclaim at e l h = tt
moved_task-IsConsistent s t revive at e l h = tt
moved_task-IsConsistent s t (claim se wo br c) at e l h = ground arith
moved_task-IsConsistent s t (finish c) at e l h = ground arith
moved_task-IsConsistent s t (block r) at e l h = ground arith
moved_task-IsConsistent s t external_done at e l h = ground arith
moved_task-IsConsistent running t gate at e l h =
    subst
      (λ x. Asks x t.session t.worktree t.branch t.started_at t.finished_at t.failed_at t.reason) e
      h
moved_task-IsConsistent _ t gate at e l h = absurd (cc)

-- What the verbs of the store can do to a stored task.
pub data Step : Task → Task → Type 0 where
  moves :
      (t : Task) (transition : Transition) (at : String)
      → is_legal t.status transition ≡ true
      → Step t (moved_task t transition at)
  resets : (t : Task) → Step t (cleared t)
  edits : (t : Task) (edit : TaskEdit) → Step t (edited t edit)
  links : (t u : Task) → Step t (linked t u)
  policies :
      (t : Task) (strategy : Option RetryStrategy) (cap : Option ℕ)
      → Step t (repoliced t strategy cap)
  bumps : (t : Task) → Step t (bumped t)
  beats : (t : Task) (at : String) → Step t (record t { heartbeat = some at })

pub data Reach (s : Task) : Task → Type 0 where
  here : Reach s s
  next : {t u : Task} → Reach s t → Step t u → Reach s u

Step-IsConsistent : {t u : Task} → Step t u → IsConsistent t → IsConsistent u
unfolding cleared edited linked repoliced bumped
Step-IsConsistent (moves t transition at l) h =
    moved_task-IsConsistent t.status t transition at refl l h
Step-IsConsistent (resets t) h = tt
Step-IsConsistent (edits t edit) h = h
Step-IsConsistent (links t u) h = h
Step-IsConsistent (policies t strategy cap) h = h
Step-IsConsistent (bumps t) h = h
Step-IsConsistent (beats t at) h = h

seed-IsConsistent :
    (i r t s : String) (ds os : List String) (tl : Option String)
    → IsConsistent (seed i r t s ds os tl)
unfolding seed
seed-IsConsistent i r t s ds os tl = tt

Reach-IsConsistent : {t u : Task} → IsConsistent t → Reach t u → IsConsistent u
Reach-IsConsistent h here = h
Reach-IsConsistent h (next r st) = Step-IsConsistent st (Reach-IsConsistent h r)

-- A task that was seeded, and then changed by any legal transitions, resets, edits, issue links,
-- policy changes, retry counts and heartbeats in any order, is consistent.
pub seed-Reach-IsConsistent :
    (i r t s : String) (ds os : List String) (tl : Option String) (u : Task)
    → Reach (seed i r t s ds os tl) u
    → IsConsistent u
seed-Reach-IsConsistent i r t s ds os tl u h =
    Reach-IsConsistent (seed-IsConsistent i r t s ds os tl) h
