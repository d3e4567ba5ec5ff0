-- ===== src/Engine/Commands.antt =====
-- crates/lazybones-engine: what the scheduler asks of the world. Each command is one call of `git`,
-- `sh`, the file system, `hcom` (crates/lazybones-engine/src/hcom), the extension host or the store
-- handle, with the type of its answer. An error of crate `anyhow` is its text.
use lazybones.Prelude.{ℕ, Bool, String, Option, List, Outcome}
use lazybones.Store.Error.{StoreError}
use lazybones.Store.Chat.{ChatMessage}
use lazybones.Store.Task.Status.{Status}
use lazybones.Store.Task.Model.{Task}
use lazybones.Store.Task.Transition.{Transition}
use lazybones.Store.Run.Model.{Run}
use lazybones.Engine.Effective.{EffectiveGit}
use lazybones.Engine.Reclaim.{HcomAgent}

-- crates/lazybones-engine/src/scheduler/git.rs
pub record GitOut : Type 0 where
  pub ok : Bool
  pub stdout : String
  pub stderr : String

-- `std::process::Output`, decoded.
pub record Output : Type 0 where
  pub success : Bool
  pub stdout : String
  pub stderr : String

-- An entry of a directory: its name, and whether its path is a directory.
pub record DirEntry : Type 0 where
  pub name : String
  pub is_dir : Bool

-- crates/lazybones-engine/src/hcom/events.rs: of an event, the text in its data, if it has one.
pub record HcomEvent : Type 0 where
  pub text : Option String

-- crates/lazybones-engine/src/hcom/spawn.rs
pub record AgentLaunch : Type 0 where
  pub model : Option String
  pub effort : Option String
  pub permission_flags : List String

-- The answer of the extensions that check a gate.
pub data GateDecision : Type 0 where
  pass : GateDecision
  block : (reason : String) → GateDecision

-- crates/lazybones-store/src/follow_up/append.rs
pub record NewFollowUpEntry : Type 0 where
  pub run : String
  pub task : Option String
  pub dedup_key : String
  pub kind : String
  pub title : String
  pub detail : String
  pub actor : String

pub data Command : Type 0 where
  git : (repo : String) (args : List String) → Command
  sh : (worktree cmd : String) → Command
  is_dir is_file exists : (path : String) → Command
  read_to_string read_dir : (path : String) → Command
  create_dir_all : (path : String) → Command
  write_file : (path contents : String) → Command
  seed_claude_folder_trust : (path : String) → Command
  hcom_list : Command
  hcom_wait : (sql : String) (secs : ℕ) → Command
  hcom_kill_tag : (tag : String) → Command
  hcom_spawn : (tool tag dir prompt : String) → AgentLaunch → Command
  gate_check : Task → (worktree : String) → Command
  list_tasks : Status → Command
  list_run_tasks : (run_id : String) → Command
  list_runs : Command
  get_task get_run : (id : String) → Command
  chat_history : (id : String) → Command
  newly_ready : (stopped : List String) → Command
  unpromotable_run_ids : Command
  transition : (id : String) → Transition → (actor : String) → Command
  revive_with_guidance : (id guidance actor : String) (bump : Bool) → Command
  file_follow_up : NewFollowUpEntry → Command
  close_on_done : Task → Command
  -- The set of the tasks that this process drives, behind its lock, and the tasks it spawns.
  is_driving : (id : String) → Command
  reserve : (id : String) → Command
  release : (id : String) → Command
  spawn_drive : EffectiveGit → Task → Command

abbrev pub Answer : Command → Type 0
Answer (git r args) = Outcome String GitOut
Answer (sh w c) = Outcome String Output
Answer (is_dir p) = Bool
Answer (is_file p) = Bool
Answer (exists p) = Bool
Answer (read_to_string p) = Option String
Answer (read_dir p) = Option (List DirEntry)
Answer (create_dir_all p) = Outcome String (Unit {0})
Answer (write_file p c) = Outcome String (Unit {0})
Answer (seed_claude_folder_trust p) = Unit {0}
Answer hcom_list = Outcome String (List HcomAgent)
Answer (hcom_wait q s) = Outcome String (List HcomEvent)
Answer (hcom_kill_tag t) = Outcome String (Unit {0})
Answer (hcom_spawn o t d p l) = Outcome String String
Answer (gate_check t w) = GateDecision
Answer (list_tasks s) = Outcome StoreError (List Task)
Answer (list_run_tasks r) = Outcome StoreError (List Task)
Answer list_runs = Outcome StoreError (List Run)
Answer (get_task i) = Outcome StoreError (Option Task)
Answer (get_run i) = Outcome StoreError (Option Run)
Answer (chat_history i) = Outcome StoreError (List ChatMessage)
Answer (newly_ready s) = Outcome StoreError (List String)
Answer unpromotable_run_ids = Outcome StoreError (List String)
Answer (transition i t a) = Outcome StoreError Task
Answer (revive_with_guidance i g a b) = Outcome StoreError Task
Answer (file_follow_up e) = Outcome StoreError (Unit {0})
Answer (close_on_done t) = Unit {0}
Answer (is_driving i) = Bool
Answer (reserve i) = Bool
Answer (release i) = Unit {0}
Answer (spawn_drive e t) = Unit {0}
