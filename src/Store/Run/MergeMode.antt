-- ===== src/Store/Run/MergeMode.antt =====
-- crates/lazybones-store/src/run/model.rs: the stored merge strategy.
use lazybones.Prelude.{String, Option, is_text, if◌then◌else◌}

pub data MergeMode : Type 0 where
  fast_forward merge pr : MergeMode

unfoldable pub as_str : MergeMode → String
as_str fast_forward = "fast-forward"
as_str merge = "merge"
as_str pr = "pr"

-- A missing or unknown value is `fast_forward`.
unfoldable pub parse : Option String → MergeMode
parse s = if is_text s "merge" then merge else if is_text s "pr" then pr else fast_forward
