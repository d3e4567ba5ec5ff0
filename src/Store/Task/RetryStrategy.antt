-- ===== src/Store/Task/RetryStrategy.antt =====
-- crates/lazybones-store/src/task/model.rs: how a revived task approaches its fix.
use Prim.Native.String.{◌++◌}
use lazybones.Prelude.{String, Option, none, some, is_text, if◌then◌else◌}

pub data RetryStrategy : Type 0 where
  long_term quick : RetryStrategy

unfoldable pub as_str : RetryStrategy → String
as_str long_term = "long_term"
as_str quick = "quick"

unfoldable pub parse : Option String → Option RetryStrategy
parse s =
    if is_text s "long_term" then some long_term else if is_text s "quick" then some quick else none

-- The blurb that goes into the prompt of the next attempt.
pub guidance : RetryStrategy → String → String
guidance long_term reason =
    "Your previous attempt was blocked: " ++ reason
    ++ ". Fix the root cause properly — choose the correct, maintainable solution even if it "
    ++ "touches more code or takes longer. Do not paper over the failure."
guidance quick reason =
    "Your previous attempt was blocked: " ++ reason
    ++ ". Apply the smallest, fastest change that gets this task green. Do not refactor or expand "
    ++ "scope — just unblock it."
