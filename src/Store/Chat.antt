-- ===== src/Store/Chat.antt =====
-- crates/lazybones-store/src/chat/{model,row}.rs: one message of a task's conversation.
use lazybones.Prelude.{String, Option, if◌then◌else◌, ◌==◌}
use lazybones.Store.Task.Row.{RecordId}
use lazybones.Store.Run.Row.{Int64}

pub data ChatRole : Type 0 where
  user agent : ChatRole

unfoldable pub as_str : ChatRole → String
as_str user = "user"
as_str agent = "agent"

-- An unknown author is not attributed to the agent.
unfoldable pub parse : String → ChatRole
parse s = if s == "agent" then agent else user

pub record ChatMessage : Type 0 where
  pub run : String
  pub task : String
  pub role : ChatRole
  pub text : String
  pub at : String

-- The content of a new message; the database mints the key.
pub record NewChat : Type 0 where
  pub run : String
  pub task : String
  pub role : String
  pub text : String
  pub at : String
  pub hcom_id : Option Int64

pub record ChatRow : Type 0 where
  pub id : RecordId
  pub run : String
  pub task : String
  pub role : String
  pub text : String
  pub at : String
  pub hcom_id : Option Int64

unfoldable pub into_message : ChatRow → ChatMessage
unfolding parse
into_message r = record {
  run = r.run;
  task = r.task;
  role = parse r.role;
  text = r.text;
  at = r.at;
}
