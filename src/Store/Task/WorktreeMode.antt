-- ===== src/Store/Task/WorktreeMode.antt =====
-- crates/lazybones-store/src/task/model.rs: how the loop provisions the working tree.
use lazybones.Prelude.{String, Option, Bool, true, false, is_text, if◌then◌else◌}

pub data WorktreeMode : Type 0 where
  new reuse branch shared : WorktreeMode

-- `#[default]`: what authoring gives.
unfoldable pub default : WorktreeMode
default = shared

-- `==` of the derived `PartialEq`.
unfoldable pub mode_eq : WorktreeMode → WorktreeMode → Bool
mode_eq new new = true
mode_eq reuse reuse = true
mode_eq branch branch = true
mode_eq shared shared = true
mode_eq _ _ = false

unfoldable pub as_str : WorktreeMode → String
as_str new = "new"
as_str reuse = "reuse"
as_str branch = "branch"
as_str shared = "shared"

-- A missing or unknown stored value is `new`, not the default.
unfoldable pub parse : Option String → WorktreeMode
parse s =
    if is_text s "reuse"
    then reuse
    else if is_text s "branch"
    then branch
    else if is_text s "shared"
    then shared
    else new
