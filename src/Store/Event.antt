-- ===== src/Store/Event.antt =====
-- crates/lazybones-store/src/event: the rows of the run log.
use lazybones.Prelude.{String}
use lazybones.Store.Task.Row.{RecordId}

pub record Event : Type 0 where
  pub run : String
  pub task : String
  pub from : String
  pub to : String
  pub actor : String
  pub at : String

-- The content of a new event; the database mints the key.
pub record NewEvent : Type 0 where
  pub run : String
  pub task : String
  pub from : String
  pub to : String
  pub actor : String
  pub at : String

pub record EventRow : Type 0 where
  pub id : RecordId
  pub run : String
  pub task : String
  pub from : String
  pub to : String
  pub actor : String
  pub at : String

abbrev pub into_event : EventRow → Event
into_event r = record {
  run = r.run;
  task = r.task;
  from = r.from;
  to = r.to;
  actor = r.actor;
  at = r.at;
}
