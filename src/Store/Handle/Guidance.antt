-- ===== src/Store/Handle/Guidance.antt =====
-- crates/lazybones-store/src/handle.rs, revive_with_guidance: what it promises of the tables and the bus.
use lazybones.Prelude.{
  Bool, true, false, String, List, [], ◌∷◌, ◌++◌, ◌≡◌, ◌⊎◌, ℕ, ◌+◌, ◌<◌, ◌≤◌, u32_max,
}
use lazybones.Store.Error.{StoreError}
use lazybones.Store.Surreal.{Contents}
use lazybones.Store.Event.{Event}
use lazybones.Store.Chat.{ChatMessage, ChatRow, user, into_message}
use lazybones.Store.Task.Model.{Task}
use lazybones.Store.Task.Transition.{revive}
use lazybones.Store.Verbs.Post.{Untouched, Holds}
use lazybones.Store.Verbs.Moves.{with_task, Moved, NotMoved}
use lazybones.Store.Handle.{LiveEvent, transition_event, chat_event}

-- The message is the operator's, with the guidance as its text, on the task.
pub record IsGuidance (id guidance : String) (m : ChatMessage) : Type 0 where
  pub on_task : m.task ≡ id
  pub says : m.text ≡ guidance
  pub by_user : m.role ≡ user

-- The message was added to the stored ones, and published.
abbrev pub Spoke :
    (id guidance : String)
    → Contents
    → List LiveEvent
    → ChatMessage
    → Contents
    → List LiveEvent
    → Type 0
Spoke id guidance c bus m c' bus' =
    IsGuidance id guidance m
    × ((row : ChatRow) × (m ≡ into_message row) × (c' ≡ record c { chats = c.chats ++ row ∷ [] }))
    × (bus' ≡ bus ++ chat_event m ∷ [])

-- One retry more, up to the largest number.
abbrev pub IsNext : ℕ → ℕ → Type 0
IsNext n next = ((n < u32_max) × (next ≡ n + 1)) ⊎ ((u32_max ≤ n) × (next ≡ u32_max))

-- The task was written with one more retry counted, if that was asked.
abbrev pub Counted : (bump_count : Bool) → (id : String) → Contents → Contents → Type 0
Counted false id c c' = c' ≡ c
Counted true id c c' =
    (old : Task) × (next : ℕ) × Holds c id old
    × IsNext old.retry_count next
    × (c' ≡ with_task c id (record old { retry_count = next }))

-- A revive that failed: the guidance was not stored, or it was and the count or the move failed.
pub data NotRevived (id guidance actor : String) (bump_count : Bool) (c : Contents)
    (bus : List LiveEvent) (e : StoreError) (c' : Contents) (bus' : List LiveEvent) : Type 0 where
  unheard :
      Untouched c id e c' → bus' ≡ bus → NotRevived id guidance actor bump_count c bus e c' bus'
  uncounted :
      (m : ChatMessage) (spoken : Contents)
      → Spoke id guidance c bus m spoken bus'
      → bump_count ≡ true
      → Untouched spoken id e c'
      → NotRevived id guidance actor bump_count c bus e c' bus'
  unmoved :
      (m : ChatMessage) (spoken before : Contents)
      → Spoke id guidance c bus m spoken bus'
      → Counted bump_count id spoken before
      → NotMoved before id revive e c'
      → NotRevived id guidance actor bump_count c bus e c' bus'

-- What a revive that was made has done: the guidance was stored and published first, then the retry
-- was counted, then the task was moved to `ready` and the event of that published.
pub record Revived (id guidance actor : String) (bump_count : Bool) (c : Contents)
    (bus : List LiveEvent) (t : Task) (c' : Contents) (bus' : List LiveEvent) : Type 0 where
  pub message : ChatMessage
  pub spoken : Contents
  pub told : List LiveEvent
  pub spoke : Spoke id guidance c bus message spoken told
  pub before : Contents
  pub counted : Counted bump_count id spoken before
  pub event : Event
  pub moved : Moved before id revive actor t event c'
  pub published : bus' ≡ told ++ transition_event event ∷ []
