-- ===== src/Store/Run/Lifecycle.antt =====
-- crates/lazybones-store/src/run/model.rs: the human-set lifecycle of a run.
use lazybones.Prelude.{String, Option, Bool, true, false, ◌||◌, is_text, if◌then◌else◌}

pub data Lifecycle : Type 0 where
  active stopped : Lifecycle

-- `==` of the derived `PartialEq`.
unfoldable pub lifecycle_eq : Lifecycle → Lifecycle → Bool
lifecycle_eq active active = true
lifecycle_eq stopped stopped = true
lifecycle_eq _ _ = false

unfoldable pub as_str : Lifecycle → String
as_str active = "active"
as_str stopped = "stopped"

-- The legacy `cancelled` reads as `stopped`, and all else as `active`.
unfoldable pub parse : Option String → Lifecycle
parse s = if is_text s "stopped" || is_text s "cancelled" then stopped else active
