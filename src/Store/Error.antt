-- ===== src/Store/Error.antt =====
-- crates/lazybones-store/src/error.rs. An error of the database carries its message.
use Prim.Native.String.{◌++◌}
use lazybones.Prelude.{String}

pub data StoreError : Type 0 where
  connect bootstrap health operation : String → StoreError
  illegal_transition : (task from to : String) → StoreError
  task_not_found task_exists : String → StoreError
  template_not_found template_exists : String → StoreError
  skill_not_found skill_exists skill_seed : String → StoreError
  run_not_found run_exists : String → StoreError
  agent_not_found agent_exists agent_seed : String → StoreError
  secret : String → StoreError
  document_not_found document_exists : String → StoreError
  asset_not_found branding_not_found branding_exists : String → StoreError
  source_not_found page_not_found : String → StoreError
  extension_not_found extension_exists : String → StoreError
  sync_io sync_serde : String → StoreError

-- `Display`.
unfoldable pub to_string : StoreError → String
to_string (connect e) = "failed to open store engine: " ++ e
to_string (bootstrap e) = "failed to bootstrap namespace/database: " ++ e
to_string (health e) = "store health probe failed: " ++ e
to_string (operation e) = "store operation failed: " ++ e
to_string (illegal_transition task f t) =
    "illegal transition for task " ++ task ++ ": " ++ f ++ " -> " ++ t
to_string (task_not_found e) = "task not found: " ++ e
to_string (task_exists e) = "task already exists: " ++ e
to_string (template_not_found e) = "template not found: " ++ e
to_string (template_exists e) = "template already exists: " ++ e
to_string (skill_not_found e) = "skill not found: " ++ e
to_string (skill_exists e) = "skill already exists: " ++ e
to_string (skill_seed e) = "skill catalogue seed failed: " ++ e
to_string (run_not_found e) = "run not found: " ++ e
to_string (run_exists e) = "run already exists: " ++ e
to_string (agent_not_found e) = "agent not found: " ++ e
to_string (agent_exists e) = "agent already exists: " ++ e
to_string (agent_seed e) = "agent catalog seed failed: " ++ e
to_string (secret e) = "secret error: " ++ e
to_string (document_not_found e) = "document not found: " ++ e
to_string (document_exists e) = "document already exists: " ++ e
to_string (asset_not_found e) = "asset not found: " ++ e
to_string (branding_not_found e) = "branding not found: " ++ e
to_string (branding_exists e) = "branding already exists: " ++ e
to_string (source_not_found e) = "source not found: " ++ e
to_string (page_not_found e) = "page not found: " ++ e
to_string (extension_not_found e) = "extension not found: " ++ e
to_string (extension_exists e) = "extension already exists: " ++ e
to_string (sync_io e) = "content sync I/O failed: " ++ e
to_string (sync_serde e) = "content sync (de)serialization failed: " ++ e
