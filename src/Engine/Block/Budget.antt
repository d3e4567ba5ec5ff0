-- ===== src/Engine/Block/Budget.antt =====
-- What the blocking of a task asks: one transition, and one revival of the task within its budget.
use lazybones.Prelude.{
  String, ◌≡◌, refl, ◌≤◌, ◌<◌, ◌⊎◌, inl, inr, true, Option, none, some, Outcome, ok, err, arith,
  leb, by_test,
}
use lazybones.Store.Error.{StoreError}
use lazybones.Store.Task.Model.{Task}
use lazybones.Store.Task.RetryStrategy.{RetryStrategy, guidance}
use lazybones.Store.Task.Transition as Intent
use lazybones.Store.Task.Transition.{Transition}
use lazybones.Engine.Commands.{Command, Answer, transition, revive_with_guidance, file_follow_up}
use lazybones.Engine.Program.Obeys.{Protocol, Obeys, bind-Obeys}
use lazybones.Engine.FollowUp.{Wall, classify, entry_for, file_wall, file_if_actionable}
use lazybones.Engine.Block.{block, retry, after_block}

-- How far the blocking of a task is: not yet asked, refused by the store, blocked as the store answered
-- it, or revived.
pub data Stage : Type 0 where
  waiting refused : Stage
  is_blocked : Task → Stage
  revived : Stage

-- A retry of the blocked task is due: it has a strategy, which words the guidance, and budget left.
abbrev pub IsDue : (reason guide : String) → Task → Type 0
IsDue reason guide blocked =
    (strategy : RetryStrategy) × (blocked.auto_retry ≡ some strategy)
    × (guide ≡ guidance strategy reason)
    × (blocked.retry_count < blocked.max_retries)

-- No retry is due.
abbrev pub IsSpent : Task → Type 0
IsSpent blocked = (blocked.auto_retry ≡ none) ⊎ (blocked.max_retries ≤ blocked.retry_count)

abbrev MayAsk : Task → (reason actor : String) → Stage → Command → Type 0
MayAsk task reason actor waiting (file_follow_up entry) = entry.task ≡ some task.id
MayAsk task reason actor waiting (transition id intent by) =
    (id ≡ task.id) × (intent ≡ Intent.block reason) × (by ≡ actor)
MayAsk task reason actor (is_blocked blocked) (revive_with_guidance id guide by bump) =
    (id ≡ task.id) × (by ≡ actor) × (bump ≡ true) × IsDue reason guide blocked
MayAsk task reason actor _ _ = ⊥

abbrev after_answer : Stage → (c : Command) → Answer c → Stage
after_answer s (transition id intent by) (ok blocked) = is_blocked blocked
after_answer s (transition id intent by) (err e) = refused
after_answer s (revive_with_guidance id guide by bump) answer = revived
after_answer s _ _ = s

-- One transition to `blocked`, and then at most one revival, where it is due.
abbrev pub retry_within_budget : Task → (reason actor : String) → Protocol
retry_within_budget task reason actor = record {
  State = Stage;
  Allows = MayAsk task reason actor;
  after = after_answer;
}

-- The stage at the end: the transition was asked, and a task that was blocked and stays so has no retry
-- due.
abbrev pub Settled : Stage → Type 0
Settled waiting = ⊥
Settled refused = Unit
Settled (is_blocked blocked) = IsSpent blocked
Settled revived = Unit

retry-Obeys :
    (task : Task) (reason actor : String) (blocked : Task) (strategy : Option RetryStrategy)
    → blocked.auto_retry ≡ strategy
    → Obeys
        (retry_within_budget task reason actor)
        (retry task reason actor blocked strategy)
        (is_blocked blocked)
        (λ _ s. Settled s)
retry-Obeys task reason actor blocked none e = inl e
retry-Obeys task reason actor blocked (some strategy) e =
    by_test
      (λ m. Obeys (retry_within_budget task reason actor) m (is_blocked blocked) (λ _ s. Settled s))
      (leb blocked.max_retries blocked.retry_count) (λ spent. inr (ground arith))
      (λ left. ((refl, refl, refl, (strategy, e, refl, ground arith)), λ x. tt))

after_block-Obeys :
    (task : Task) (reason actor : String) (answer : Outcome StoreError Task) (s : Stage)
    → s ≡ after_answer waiting (transition task.id (Intent.block reason) actor) answer
    → Obeys
        (retry_within_budget task reason actor)
        (after_block task reason actor answer)
        s
        (λ _ s'. Settled s')
after_block-Obeys task reason actor (ok blocked) s e =
    rw (e) (retry-Obeys task reason actor blocked blocked.auto_retry refl)
after_block-Obeys task reason actor (err x) s e = rw (e) tt

filing-Obeys :
    (task : Task) (reason actor : String) (wall : Option Wall)
    → Obeys
        (retry_within_budget task reason actor)
        (file_wall task actor wall)
        waiting
        (λ _ s. s ≡ waiting)
unfolding entry_for
filing-Obeys task reason actor none = refl
filing-Obeys task reason actor (some wall) = (refl, λ x. refl)

-- Whatever the store answers, the blocking of a task asks for exactly one transition of it, to
-- `blocked` with the reason; it asks for a revival only of the task that the store answered, only where that
-- task has a strategy and fewer retries spent than allowed, once, with the guidance of the strategy
-- and the retry counted. A task that is blocked and not revived has no strategy, or no retries left.
pub block-Obeys :
    (to_lowercase : String → String) (task : Task) (reason actor : String)
    → Obeys
        (retry_within_budget task reason actor)
        (block to_lowercase task reason actor)
        waiting
        (λ _ s. Settled s)
unfolding block file_if_actionable
block-Obeys to_lowercase task reason actor =
    bind-Obeys (retry_within_budget task reason actor)
      (file_if_actionable to_lowercase task reason actor) _ waiting (λ _ s. s ≡ waiting) _
      (filing-Obeys task reason actor (classify to_lowercase reason))
      (λ _ s e.
        rw (e) ((refl, refl, refl), λ answer. after_block-Obeys task reason actor answer _ refl))
