-- ===== src/Store/Task/IssueSyncState.antt =====
-- crates/lazybones-store/src/task/model.rs: the last known state of a task's issue.
use lazybones.Prelude.{
  ℕ, ◌+◌, Bool, true, false, ◌&&◌, String, Option, none, some, List, [], ◌∷◌, map, if◌then◌else◌,
  leb, nat_eq, codes,
}

pub data IssueSyncState : Type 0 where
  open_ closed : IssueSyncState

unfoldable pub as_str : IssueSyncState → String
as_str open_ = "open"
as_str closed = "closed"

-- The code points of `str::to_ascii_lowercase`.
abbrev lower : ℕ → ℕ
lower c = if leb b'A' c && leb c b'Z' then c + 32 else c

abbrev pub to_ascii_lowercase : String → List ℕ
to_ascii_lowercase s = map lower (codes s)

abbrev same_codes : List ℕ → List ℕ → Bool
same_codes [] [] = true
same_codes (x ∷ xs) (y ∷ ys) = nat_eq x y && same_codes xs ys
same_codes _ _ = false

-- The lowered text is a given one.
abbrev pub reads_as : Option String → String → Bool
reads_as none t = false
reads_as (some s) t = same_codes (to_ascii_lowercase s) (codes t)

unfoldable pub parse : Option String → Option IssueSyncState
parse s =
    if reads_as s "open" then some open_ else if reads_as s "closed" then some closed else none
