-- ===== src/Engine/Gate.antt =====
-- crates/lazybones-engine/src/scheduler/gate.rs: the commands of the gate in a worktree, in order.
pub mod Preflight
pub mod Passes
use Prim.Native.Char.{code}
use Prim.Native.String.{◌++◌ as ◌<>◌}
use lazybones.Prelude.{ℕ, ◌+◌, String, Bool, List, [], ◌∷◌, if◌then◌else◌, leb, ltb}
use lazybones.Engine.Commands.{sh, Output}
use lazybones.Engine.Program.{perform}
use lazybones.Engine.Program.Fallible.{Attempt, ◌>>=◌, succeed}

pub data GateOutcome : Type 0 where
  green : GateOutcome
  red : (reason : String) → GateOutcome

abbrev pub tail_len : ℕ
tail_len = 2000

-- `str::len`: the bytes of the text in UTF-8.
abbrev pub bytes_of : ℕ → ℕ
bytes_of c = if ltb c 0x80 then 1 else if ltb c 0x800 then 2 else if ltb c 0x10000 then 3 else 4

unfoldable pub len : String → ℕ
len String.[] = 0
len (String.◌∷◌ c s) = bytes_of (code c) + len s

-- The last characters that take at most `n` bytes: characters go from the front until the rest fits.
unfoldable pub tail : String → (n : ℕ) → String
unfolding len
tail String.[] n = String.[]
tail (String.◌∷◌ c s) n =
    let rest = tail s n in if leb (len (String.◌∷◌ c s)) n then String.◌∷◌ c s else rest

-- The first command that fails is the reason, with the end of its output.
unfoldable pub run : (worktree : String) → (commands : List String) → Attempt GateOutcome
unfolding tail
run worktree [] = succeed green
run worktree (cmd ∷ commands) =
    let rest = run worktree commands in
    do
      out ← perform (sh worktree cmd)
      if out.success
          then rest
          else succeed
              (red ("`" <> cmd <> "` failed:\n" <> tail (out.stdout <> out.stderr) tail_len))
