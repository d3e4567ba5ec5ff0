-- ===== src/Store/Task/Status.antt =====
-- crates/lazybones-store/src/task/status.rs: the lifecycle state machine.
use lazybones.Prelude.{Bool, true, false, String}

pub data Status : Type 0 where
  pending ready running gating done blocked : Status

pub Status-discrete : Discrete Status
Status-discrete = hlevel

-- `==` of the derived `PartialEq`.
unfoldable pub status_eq : Status → Status → Bool
status_eq pending pending = true
status_eq ready ready = true
status_eq running running = true
status_eq gating gating = true
status_eq done done = true
status_eq blocked blocked = true
status_eq _ _ = false

unfoldable pub as_str : Status → String
as_str pending = "pending"
as_str ready = "ready"
as_str running = "running"
as_str gating = "gating"
as_str done = "done"
as_str blocked = "blocked"

-- Whether `self -> to` is a legal transition.
unfoldable pub can_transition : Status → Status → Bool
can_transition pending ready = true
can_transition ready running = true
can_transition running gating = true
can_transition running ready = true
can_transition gating done = true
can_transition gating ready = true
can_transition blocked ready = true
can_transition pending blocked = true
can_transition ready blocked = true
can_transition running blocked = true
can_transition gating blocked = true
can_transition _ _ = false

unfoldable pub is_terminal : Status → Bool
is_terminal done = true
is_terminal blocked = true
is_terminal _ = false
