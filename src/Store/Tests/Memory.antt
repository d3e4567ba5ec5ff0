-- ===== src/Store/Tests/Memory.antt =====
-- A database in memory that never fails, with the documented behaviour of its calls. It finds no
-- mirrored reply.
use lazybones.Prelude.{String, Option, none, some, [], ◌∷◌, ◌++◌, ◌≡◌, refl, insert, ok, empty_map}
use lazybones.Store.Surreal.{
  Surreal, IsDocumented, Contents, UpdatesTask, MergesHeartbeat, UpdatesRun,
}
use lazybones.Store.Task.Row.{TaskRow, text}
use lazybones.Store.Run.Row.{RunRow}
use lazybones.Store.Event.{NewEvent, EventRow}
use lazybones.Store.Chat.{NewChat, ChatRow}

abbrev pub beat : String → Option TaskRow → Option TaskRow
beat at none = none
beat at (some old) = some (record old { heartbeat = some at })

abbrev pub put_task : Contents → String → Option TaskRow → Contents
put_task c id none = c
put_task c id (some row) = record c { tasks = insert id row c.tasks }

abbrev pub put_run : Contents → String → Option RunRow → Contents
put_run c id none = c
put_run c id (some row) = record c { runs = insert id row c.runs }

-- What an update of a row answers.
abbrev pub if_held : {V : Type 0} → Option V → V → Option V
if_held none row = none
if_held (some old) row = some row

abbrev pub event_row : NewEvent → EventRow
event_row e = record {
  id = record { table = "event"; key = text "minted" };
  run = e.run;
  task = e.task;
  from = e.from;
  to = e.to;
  actor = e.actor;
  at = e.at;
}

abbrev pub chat_row : NewChat → ChatRow
chat_row m = record {
  id = record { table = "chat"; key = text "minted" };
  run = m.run;
  task = m.task;
  role = m.role;
  text = m.text;
  at = m.at;
  hcom_id = m.hcom_id;
}

abbrev pub memory : Surreal
memory = record {
  Db = Contents;
  contents = λ c. c;
  now = λ c. "2026-01-01T00:00:00Z";
  select_task = λ id c. (ok (c.tasks id), c);
  update_task_row =
      λ id row c. (ok (if_held (c.tasks id) row), put_task c id (if_held (c.tasks id) row));
  upsert_task_row = λ id row c. (ok (some row), put_task c id (some row));
  create_task_row = λ id row c. (ok (some row), put_task c id (some row));
  merge_heartbeat = λ id at c. (ok (beat at (c.tasks id)), put_task c id (beat at (c.tasks id)));
  select_run = λ id c. (ok (c.runs id), c);
  update_run_row =
      λ id row c. (ok (if_held (c.runs id) row), put_run c id (if_held (c.runs id) row));
  create_run_row = λ id row c. (ok (some row), put_run c id (some row));
  create_event =
      λ e c. (ok (some (event_row e)), record c { events = c.events ++ event_row e ∷ [] });
  select_chat = λ task hcom_id c. (ok [], c);
  create_chat = λ m c. (ok (some (chat_row m)), record c { chats = c.chats ++ chat_row m ∷ [] });
}

updates_task :
    (id : String) (row : TaskRow) (c : Contents) (o : Option TaskRow)
    → c.tasks id ≡ o
    → UpdatesTask c id row (if_held o row) (put_task c id (if_held o row))
updates_task id row c none h = (h, refl)
updates_task id row c (some old) h = (old, h, refl, refl)

beats_task :
    (id at : String) (c : Contents) (o : Option TaskRow)
    → c.tasks id ≡ o
    → MergesHeartbeat c id at (beat at o) (put_task c id (beat at o))
beats_task id at c none h = (h, refl)
beats_task id at c (some old) h = (old, h, refl, refl)

updates_run :
    (id : String) (row : RunRow) (c : Contents) (o : Option RunRow)
    → c.runs id ≡ o
    → UpdatesRun c id row (if_held o row) (put_run c id (if_held o row))
updates_run id row c none h = (h, refl)
updates_run id row c (some old) h = (old, h, refl, refl)

pub memory-IsDocumented : IsDocumented memory
memory-IsDocumented = record {
  select_task_law = λ id c. (refl, refl);
  update_task_law = λ id row c. updates_task id row c (c.tasks id) refl;
  upsert_task_law = λ id row c. (refl, refl);
  create_task_law = λ id row c. (refl, refl);
  merge_heartbeat_law = λ id at c. beats_task id at c (c.tasks id) refl;
  select_run_law = λ id c. (refl, refl);
  update_run_law = λ id row c. updates_run id row c (c.runs id) refl;
  create_run_law = λ id row c. (refl, refl);
  create_event_law = λ e c. (refl, refl, refl, refl, refl, refl, refl);
  select_chat_law = λ task hcom_id c. (tt, refl);
  create_chat_law = λ m c. (refl, refl, refl, refl, refl, refl, refl);
}

-- Contents with no row.
abbrev pub no_rows : Contents
no_rows = record { tasks = empty_map; runs = empty_map; events = []; chats = [] }
