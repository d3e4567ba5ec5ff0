-- ===== src/Engine/Block/Footprint.antt =====
-- The commands that the blocking of a task asks.
use lazybones.Prelude.{
  String, ◌≡◌, refl, ◌⊎◌, inl, inr, true, Option, none, some, Outcome, ok, err, leb, by_test,
}
use lazybones.Store.Error.{StoreError}
use lazybones.Store.Task.Model.{Task}
use lazybones.Store.Task.RetryStrategy.{RetryStrategy, guidance}
use lazybones.Store.Task.Transition as Intent
use lazybones.Engine.Commands.{
  Command, transition, revive_with_guidance, file_follow_up, NewFollowUpEntry,
}
use lazybones.Engine.Program.Within.{Within, bind-Within}
use lazybones.Engine.FollowUp.{Wall, classify, entry_for, file_wall, file_if_actionable}
use lazybones.Engine.Block.{block, retry, after_block}

-- A note for the operator, a transition of the task to `blocked`, or its revival.
abbrev pub IsBlocking : (id : String) → Command → Type 0
IsBlocking id c =
    ((entry : NewFollowUpEntry) × (c ≡ file_follow_up entry))
    ⊎ ((reason : String) × (actor : String) × (c ≡ transition id (Intent.block reason) actor))
    ⊎ ((guide : String) × (actor : String) × (c ≡ revive_with_guidance id guide actor true))

retry-Within :
    (task : Task) (reason actor : String) (blocked : Task) (strategy : Option RetryStrategy)
    → Within (IsBlocking task.id) (retry task reason actor blocked strategy)
retry-Within task reason actor blocked none = tt
retry-Within task reason actor blocked (some strategy) =
    by_test (Within (IsBlocking task.id)) (leb blocked.max_retries blocked.retry_count) (λ _. tt)
      (λ _. (inr (inr (guidance strategy reason, actor, refl)), λ x. tt))

after_block-Within :
    (task : Task) (reason actor : String) (answer : Outcome StoreError Task)
    → Within (IsBlocking task.id) (after_block task reason actor answer)
after_block-Within task reason actor (ok blocked) =
    retry-Within task reason actor blocked blocked.auto_retry
after_block-Within task reason actor (err x) = tt

filing-Within :
    (task : Task) (actor : String) (wall : Option Wall)
    → Within (IsBlocking task.id) (file_wall task actor wall)
filing-Within task actor none = tt
filing-Within task actor (some wall) = (inl (entry_for task actor wall, refl), λ x. tt)

-- The blocking of a task asks nothing else.
pub block-Within :
    (to_lowercase : String → String) (task : Task) (reason actor : String)
    → Within (IsBlocking task.id) (block to_lowercase task reason actor)
unfolding block file_if_actionable
block-Within to_lowercase task reason actor =
    bind-Within (IsBlocking task.id) (file_if_actionable to_lowercase task reason actor) _
      (filing-Within task actor (classify to_lowercase reason))
      (λ _.
        (inr (inl (reason, actor, refl)), λ answer. after_block-Within task reason actor answer))
