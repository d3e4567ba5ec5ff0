-- ===== src/Engine/Block.antt =====
-- crates/lazybones-engine/src/scheduler/block.rs: how a failure blocks a task, and revives it while
-- its budget of retries lasts.
pub mod Budget
pub mod Footprint
use lazybones.Prelude.{String, Bool, true, Option, none, some, Outcome, ok, err, if◌then◌else◌, leb}
use lazybones.Store.Error.{StoreError}
use lazybones.Store.Task.Model.{Task}
use lazybones.Store.Task.RetryStrategy.{RetryStrategy, guidance}
use lazybones.Store.Task.Transition as Intent
use lazybones.Engine.Commands.{transition, revive_with_guidance}
use lazybones.Engine.Program.{Program, perform, stop, ◌>>=◌, ◌>>◌}
use lazybones.Engine.FollowUp.{file_if_actionable}

abbrev pub retry :
    Task → (reason actor : String) → (blocked : Task) → Option RetryStrategy → Program (Unit {0})
retry task reason actor blocked none = stop
retry task reason actor blocked (some strategy) =
    if leb blocked.max_retries blocked.retry_count
    then stop
    else (perform (revive_with_guidance task.id (guidance strategy reason) actor true) >> stop)

-- The rest, by the answer of the transition.
abbrev pub after_block :
    Task → (reason actor : String) → Outcome StoreError Task → Program (Unit {0})
after_block task reason actor (ok blocked) = retry task reason actor blocked blocked.auto_retry
after_block task reason actor (err e) = stop

unfoldable pub block :
    (to_lowercase : String → String) → Task → (reason actor : String) → Program (Unit {0})
block to_lowercase task reason actor = do
  file_if_actionable to_lowercase task reason actor
  answer ← perform (transition task.id (Intent.block reason) actor)
  after_block task reason actor answer
