-- ===== src/Store/Run/Derived.antt =====
-- crates/lazybones-store/src/run/derived.rs: the state of a run, computed from its tasks.
use lazybones.Prelude.{
  ◌≡◌, refl, ◌≢◌, ◌↔◌, Bool, true, false, not, ◌&&◌, ◌||◌, String, List, [], ◌∷◌, arith, all, any,
  All, Exists, if◌then◌else◌,
}
use lazybones.Store.Task.Status.{Status, status_eq}
use lazybones.Store.Task.Model.{Task}
use lazybones.Store.Run.Lifecycle.{Lifecycle, active, lifecycle_eq}

pub data RunState : Type 0 where
  done stopped needs_attention running ready draft : RunState

unfoldable pub as_str : RunState → String
as_str done = "done"
as_str stopped = "stopped"
as_str needs_attention = "needs-attention"
as_str running = "running"
as_str ready = "ready"
as_str draft = "draft"

abbrev pub has_status : Status → Task → Bool
has_status s t = status_eq t.status s

-- `matches!(t.status, Status::Running | Status::Gating)`
abbrev pub is_in_flight : Task → Bool
is_in_flight t = status_eq t.status Status.running || status_eq t.status Status.gating

abbrev pub is_empty : List Task → Bool
is_empty [] = true
is_empty (t ∷ ts) = false

unfoldable pub derived_state : Lifecycle → List Task → RunState
unfolding status_eq lifecycle_eq
derived_state lifecycle tasks =
    if not (is_empty tasks) && all (has_status Status.done) tasks
    then done
    else if lifecycle_eq lifecycle Lifecycle.stopped
    then stopped
    else if is_empty tasks
    then draft
    else if any (has_status Status.blocked) tasks
    then needs_attention
    else if any is_in_flight tasks
    then running
    else if any (has_status Status.ready) tasks
    then ready
    else draft

all_done_iff :
    (ts : List Task)
    → (all (has_status Status.done) ts ≡ true) ↔ All (λ t. t.status ≡ Status.done) ts
unfolding status_eq
all_done_iff [] = (λ h. tt, λ h. refl)
all_done_iff (t ∷ ts) = (
  λ h. (ground arith, (all_done_iff ts).0 (ground arith)),
  λ h. ground (arith, (all_done_iff ts).1 (h.1)),
)

-- A run is done exactly if it has a task and all of its tasks are done, whatever its lifecycle.
derived_state-eq-done :
    (l : Lifecycle) (ts : List Task)
    → (derived_state l ts ≡ done) ↔ ((ts ≢ []) × All (λ t. t.status ≡ Status.done) ts)
unfolding derived_state
derived_state-eq-done l [] = (λ h. ground arith, λ h. absurd (h.0 refl))
derived_state-eq-done l (t ∷ ts) = (
  λ h. (ground arith, (all_done_iff (t ∷ ts)).0 (ground arith)),
  λ h. rw ((all_done_iff (t ∷ ts)).1 (h.1)),
)

blocked_iff :
    (ts : List Task)
    → (any (has_status Status.blocked) ts ≡ true) ↔ Exists (λ t. t.status ≡ Status.blocked) ts
unfolding status_eq
blocked_iff [] = (λ h. absurd (cc), λ h. absurd h)
blocked_iff (t ∷ ts) =
    (λ h. ground (arith, (blocked_iff ts).0), λ h. ground (arith, (blocked_iff ts).1))

blocked-not_all_done :
    (ts : List Task)
    → any (has_status Status.blocked) ts ≡ true
    → all (has_status Status.done) ts ≡ false
unfolding status_eq
blocked-not_all_done [] h = absurd (cc)
blocked-not_all_done (t ∷ ts) h = ground (arith, blocked-not_all_done ts)

-- An active run needs attention exactly if some task of it is blocked, whatever the others are.
pub derived_state-eq-needs_attention :
    (ts : List Task)
    → (derived_state active ts ≡ needs_attention) ↔ Exists (λ t. t.status ≡ Status.blocked) ts
unfolding derived_state
derived_state-eq-needs_attention [] = (λ h. absurd (cc), λ h. absurd h)
derived_state-eq-needs_attention (t ∷ ts) = (
  λ h. (blocked_iff (t ∷ ts)).0 (ground arith),
  λ h. let b = (blocked_iff (t ∷ ts)).1 h in rw (blocked-not_all_done (t ∷ ts) b, b),
)
