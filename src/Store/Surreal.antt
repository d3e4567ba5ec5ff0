-- ===== src/Store/Surreal.antt =====
-- The calls of SurrealDB that the verbs make. The database is not part of the repository: it is a
-- record of its operations, with what its documentation says of each one that succeeds or fails.
use lazybones.Prelude.{
  String, Option, none, some, List, [], ◌∷◌, ◌++◌, ◌≡◌, All, Map, insert, Outcome, ok, err,
}
use lazybones.Store.Error.{StoreError, operation}
use lazybones.Store.Task.Row.{TaskRow}
use lazybones.Store.Run.Row.{Int64, RunRow}
use lazybones.Store.Event.{NewEvent, EventRow}
use lazybones.Store.Chat.{NewChat, ChatRow}

-- What the tables hold.
pub record Contents : Type 0 where
  pub tasks : Map TaskRow
  pub runs : Map RunRow
  pub events : List EventRow
  pub chats : List ChatRow

-- A call of the database: its answer or the message of its error, and the database after it.
abbrev pub Call : Type 0 → Type 0 → Type 0
Call Db A = Db → Outcome String A × Db

-- After a failed call the tables are as before it. After a call that returned they are as `Then`
-- says of the answer.
abbrev pub Leaves :
    {Db A : Type 0}
    → (Db → Contents)
    → Db
    → Outcome String A × Db
    → (A → Contents → Type 0)
    → Type 0
Leaves contents d (err e, d') Then = contents d' ≡ contents d
Leaves contents d (ok a, d') Then = Then a (contents d')

pub record Surreal : Type 1 where
  pub Db : Type 0
  pub contents : Db → Contents
  -- `Datetime::now()`, as text
  pub now : Db → String
  -- `db.select`, `db.update(..).content(..)`, `db.upsert(..).content(..)`, `db.create(..).content(..)`
  pub select_task : String → Call Db (Option TaskRow)
  pub update_task_row : String → TaskRow → Call Db (Option TaskRow)
  pub upsert_task_row : String → TaskRow → Call Db (Option TaskRow)
  pub create_task_row : String → TaskRow → Call Db (Option TaskRow)
  -- `db.update(..).merge(..)` of the field `heartbeat`
  pub merge_heartbeat : String → String → Call Db (Option TaskRow)
  pub select_run : String → Call Db (Option RunRow)
  pub update_run_row : String → RunRow → Call Db (Option RunRow)
  pub create_run_row : String → RunRow → Call Db (Option RunRow)
  pub create_event : NewEvent → Call Db (Option EventRow)
  -- `SELECT * FROM chat WHERE task = $task AND hcom_id = $hcom_id LIMIT 1`
  pub select_chat : (task : String) → (hcom_id : Int64) → Call Db (List ChatRow)
  pub create_chat : NewChat → Call Db (Option ChatRow)

-- A call that only reads.
abbrev pub Reads : {A : Type 0} → Contents → A → A → Contents → Type 0
Reads c held a c' = (a ≡ held) × (c' ≡ c)

-- An update of a task's row: it answers nothing where there is no row.
abbrev pub UpdatesTask : Contents → String → TaskRow → Option TaskRow → Contents → Type 0
UpdatesTask c id row none c' = (c.tasks id ≡ none) × (c' ≡ c)
UpdatesTask c id row (some r) c' =
    (old : TaskRow) × (c.tasks id ≡ some old)
    × (r ≡ row)
    × (c' ≡ record c { tasks = insert id row c.tasks })

-- A write of a task's row, present or not.
abbrev pub WritesTask : Contents → String → TaskRow → Option TaskRow → Contents → Type 0
WritesTask c id row none c' = c' ≡ c
WritesTask c id row (some r) c' = (r ≡ row) × (c' ≡ record c { tasks = insert id row c.tasks })

-- A merge of the heartbeat into a task's row.
abbrev pub MergesHeartbeat : Contents → String → String → Option TaskRow → Contents → Type 0
MergesHeartbeat c id at none c' = (c.tasks id ≡ none) × (c' ≡ c)
MergesHeartbeat c id at (some r) c' =
    (old : TaskRow) × (c.tasks id ≡ some old)
    × (r ≡ record old { heartbeat = some at })
    × (c' ≡ record c { tasks = insert id r c.tasks })

abbrev pub UpdatesRun : Contents → String → RunRow → Option RunRow → Contents → Type 0
UpdatesRun c id row none c' = (c.runs id ≡ none) × (c' ≡ c)
UpdatesRun c id row (some r) c' =
    (old : RunRow) × (c.runs id ≡ some old)
    × (r ≡ row)
    × (c' ≡ record c { runs = insert id row c.runs })

abbrev pub WritesRun : Contents → String → RunRow → Option RunRow → Contents → Type 0
WritesRun c id row none c' = c' ≡ c
WritesRun c id row (some r) c' = (r ≡ row) × (c' ≡ record c { runs = insert id row c.runs })

-- A new event stands last, with the fields that it was given.
abbrev pub AppendsEvent : Contents → NewEvent → Option EventRow → Contents → Type 0
AppendsEvent c e none c' = c' ≡ c
AppendsEvent c e (some r) c' =
    (r.run ≡ e.run)
    × (r.task ≡ e.task)
    × (r.from ≡ e.from)
    × (r.to ≡ e.to)
    × (r.actor ≡ e.actor)
    × (r.at ≡ e.at)
    × (c' ≡ record c { events = c.events ++ r ∷ [] })

-- The answer is of rows that stand in the table and match.
abbrev pub SelectsChat :
    Contents → (task : String) → (hcom_id : Int64) → List ChatRow → Contents → Type 0
SelectsChat c task hcom_id rows c' =
    All (λ r. (r.task ≡ task) × (r.hcom_id ≡ some hcom_id)) rows × (c' ≡ c)

-- A new message stands last, with the fields that it was given.
abbrev pub AppendsChat : Contents → NewChat → Option ChatRow → Contents → Type 0
AppendsChat c m none c' = c' ≡ c
AppendsChat c m (some r) c' =
    (r.run ≡ m.run)
    × (r.task ≡ m.task)
    × (r.role ≡ m.role)
    × (r.text ≡ m.text)
    × (r.at ≡ m.at)
    × (r.hcom_id ≡ m.hcom_id)
    × (c' ≡ record c { chats = c.chats ++ r ∷ [] })

-- What the documentation of the database says of its calls.
pub record IsDocumented (s : Surreal) : Type 0 where
  pub select_task_law :
      (id : String) (d : s.Db)
      → Leaves s.contents d (s.select_task id d) (Reads (s.contents d) ((s.contents d).tasks id))
  pub update_task_law :
      (id : String) (row : TaskRow) (d : s.Db)
      → Leaves s.contents d (s.update_task_row id row d) (UpdatesTask (s.contents d) id row)
  pub upsert_task_law :
      (id : String) (row : TaskRow) (d : s.Db)
      → Leaves s.contents d (s.upsert_task_row id row d) (WritesTask (s.contents d) id row)
  pub create_task_law :
      (id : String) (row : TaskRow) (d : s.Db)
      → Leaves s.contents d (s.create_task_row id row d) (WritesTask (s.contents d) id row)
  pub merge_heartbeat_law :
      (id at : String) (d : s.Db)
      → Leaves s.contents d (s.merge_heartbeat id at d) (MergesHeartbeat (s.contents d) id at)
  pub select_run_law :
      (id : String) (d : s.Db)
      → Leaves s.contents d (s.select_run id d) (Reads (s.contents d) ((s.contents d).runs id))
  pub update_run_law :
      (id : String) (row : RunRow) (d : s.Db)
      → Leaves s.contents d (s.update_run_row id row d) (UpdatesRun (s.contents d) id row)
  pub create_run_law :
      (id : String) (row : RunRow) (d : s.Db)
      → Leaves s.contents d (s.create_run_row id row d) (WritesRun (s.contents d) id row)
  pub create_event_law :
      (e : NewEvent) (d : s.Db)
      → Leaves s.contents d (s.create_event e d) (AppendsEvent (s.contents d) e)
  pub select_chat_law :
      (task : String) (hcom_id : Int64) (d : s.Db)
      → Leaves s.contents d (s.select_chat task hcom_id d) (SelectsChat (s.contents d) task hcom_id)
  pub create_chat_law :
      (m : NewChat) (d : s.Db)
      → Leaves s.contents d (s.create_chat m d) (AppendsChat (s.contents d) m)

-- The verbs of the store: calls whose errors are `StoreError`s.
abbrev pub Verb : Type 0 → Type 0 → Type 0
Verb Db A = Db → Outcome StoreError A × Db

-- `.map_err(StoreError::Operation)`
abbrev pub failing : {A : Type 0} → Outcome String A → Outcome StoreError A
failing (ok a) = ok a
failing (err e) = err (operation e)

module _ {Db : Type 0} where
  abbrev pub return : {A : Type 0} → A → Verb Db A
  return a d = (ok a, d)

  abbrev pub throw : {A : Type 0} → StoreError → Verb Db A
  throw e d = (err e, d)

  abbrev pub continue : {A B : Type 0} → Outcome StoreError A → (A → Verb Db B) → Verb Db B
  continue (ok a) f d = f a d
  continue (err e) f d = (err e, d)

  infixl 5 ◌>>=◌ ◌>>◌
  abbrev pub ◌>>=◌ : {A B : Type 0} → Verb Db A → (A → Verb Db B) → Verb Db B
  ◌>>=◌ m f d = let (r, d') = m d in continue r f d'

  abbrev pub ◌>>◌ : {A B : Type 0} → Verb Db A → Verb Db B → Verb Db B
  m >> n = m >>= λ _. n

  abbrev pub call : {A : Type 0} → Call Db A → Verb Db A
  call m d = let (r, d') = m d in (failing r, d')

  -- `.ok_or_else(..)?`
  abbrev pub expect : {A : Type 0} → Option A → StoreError → Verb Db A
  expect none e = throw e
  expect (some a) e = return a
