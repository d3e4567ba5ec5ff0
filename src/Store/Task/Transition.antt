-- ===== src/Store/Task/Transition.antt =====
-- crates/lazybones-store/src/task/transition.rs: the intents behind a status change, which are
-- legal, and the fields that move with them.
use lazybones.Prelude.{Bool, not, String, Option, none, some, or_else}
use lazybones.Store.Task.Status.{
  Status, ready, running, gating, done, blocked, can_transition, is_terminal,
}
use lazybones.Store.Task.Model.{Task}

pub data Transition : Type 0 where
  make_ready : Transition
  claim : (session worktree branch : String) (base_commit : Option String) → Transition
  gate : Transition
  finish : (commit : String) → Transition
  block : (reason : String) → Transition
  reclaim revive external_done : Transition

-- The status that a transition targets.
unfoldable pub target : Transition → Status
target make_ready = ready
target reclaim = ready
target revive = ready
target (claim s w b c) = running
target gate = gating
target (finish c) = done
target external_done = done
target (block r) = blocked

-- The test of `transition_task`: `external_done` leaves any state that is not terminal, and all
-- others follow the state machine.
unfoldable pub is_legal : Status → Transition → Bool
unfolding target
is_legal from external_done = not (is_terminal from)
is_legal from t = can_transition from (target t)

-- The fields that move with a transition at the time `now`.
unfoldable pub apply_side_data : Task → Transition → String → Task
apply_side_data t (claim s w b c) now = record t {
  session = some s;
  worktree = some w;
  branch = some b;
  base_commit = c;
  started_at = or_else t.started_at (some now);
}
apply_side_data t (finish c) now = record t {
  commit = some c;
  finished_at = some now;
  failed_at = none;
}
apply_side_data t external_done now = record t {
  finished_at = some now;
  failed_at = none;
  reason = none;
}
apply_side_data t (block r) now = record t { reason = some r; failed_at = some now }
apply_side_data t reclaim now = record t { session = none }
apply_side_data t revive now = record t { session = none; reason = none; failed_at = none }
apply_side_data t make_ready now = t
apply_side_data t gate now = t
