-- ===== src/Store/Handle.antt =====
-- crates/lazybones-store/src/handle.rs with chat/append.rs and event/bus.rs: the handle is the
-- database and the bus, whose state is what was published on it, oldest first.
pub mod Publishes
pub mod Guidance
pub mod Revive
use lazybones.Prelude.{
  Bool, String, Option, none, some, List, [], ◌∷◌, ◌++◌, Outcome, ok, err, if◌then◌else◌, unwrap_or,
  option_map,
}
use lazybones.Store.Error.{StoreError, operation, task_not_found}
use lazybones.Store.Surreal.{Surreal, Verb, return, ◌>>=◌, ◌>>◌, call, expect}
use lazybones.Store.Event.{Event}
use lazybones.Store.Chat.{ChatMessage, ChatRole, NewChat, ChatRow, user, as_str, into_message}
use lazybones.Store.Task.Model.{Task}
use lazybones.Store.Run.Row.{Int64}
use lazybones.Store.Task.Transition.{Transition, revive}
use lazybones.Store.Verbs.{required, transition_task, reset_task, bump_retry_count}

-- The items of the live feed that the modelled operations publish.
pub data LiveEvent : Type 0 where
  transition_event : Event → LiveEvent
  chat_event : ChatMessage → LiveEvent

module _ (s : Surreal) where
  open s use {Db, now, select_chat, create_chat}

  abbrev pub Handle : Type 0
  Handle = Db × List LiveEvent

  -- A verb of the database, which leaves the bus.
  abbrev pub on_db : {A : Type 0} → Verb Db A → Verb Handle A
  on_db m (d, bus) = let (r, d') = m d in (r, (d', bus))

  unfoldable pub publish : LiveEvent → Verb Handle (Unit {0})
  publish event (d, bus) = (ok tt, (d, bus ++ event ∷ []))

  -- The end of `append_chat`: a fresh row.
  unfoldable pub insert_chat :
      (run task : String) → ChatRole → (text : String) → Option Int64 → Verb Db ChatMessage
  insert_chat run task role text hcom_id d =
      (do
        let chat : NewChat = record {
          run = run;
          task = task;
          role = as_str role;
          text = text;
          at = now d;
          hcom_id = hcom_id;
        }
        written ← call (create_chat chat)
        expect (option_map into_message written) (operation "chat insert returned no row"))
        d

  abbrev first_or :
      (run task : String) → ChatRole → (text : String) → Int64 → List ChatRow → Verb Db ChatMessage
  first_or run task role text hcom_id [] = insert_chat run task role text (some hcom_id)
  first_or run task role text hcom_id (row ∷ rows) = return (into_message row)

  -- A mirrored reply that is stored already is answered as it is.
  unfoldable pub append_chat :
      (run task : String) → ChatRole → (text : String) → Option Int64 → Verb Db ChatMessage
  unfolding insert_chat
  append_chat run task role text none = insert_chat run task role text none
  append_chat run task role text (some hcom_id) = do
    existing ← call (select_chat task hcom_id)
    first_or run task role text hcom_id existing

  unfoldable pub transition : String → Transition → (actor : String) → Verb Handle Task
  unfolding publish
  transition id tr actor = do
    moved ← on_db (transition_task s id tr actor)
    publish (transition_event moved.1)
    return moved.0

  unfoldable pub reset : String → (actor : String) → Verb Handle Task
  unfolding publish
  reset id actor = do
    moved ← on_db (reset_task s id actor)
    publish (transition_event moved.1)
    return moved.0

  abbrev bump_if : Bool → String → Verb Handle (Unit {0})
  bump_if bump_count id =
      if bump_count then (do task ← on_db (bump_retry_count s id); return tt) else return tt

  -- The guidance first, then the count, then the edge.
  unfoldable pub revive_with_guidance :
      String → (guidance actor : String) → (bump_count : Bool) → Verb Handle Task
  unfolding transition publish append_chat
  revive_with_guidance id guidance actor bump_count = do
    task ← on_db (required s id)
    message ← on_db (append_chat (unwrap_or task.run_id task.run) id user guidance none)
    publish (chat_event message)
    bump_if bump_count id
    transition id revive actor
