-- ===== src/Api/Error.antt =====
-- crates/lazybones-api/src/error.rs, with the errors of the engine, the jobs and the blobs that it
-- maps. An error of `gh`, of the renderer or of the file system carries its message.
use Prim.Native.String.{◌++◌}
use lazybones.Prelude.{String}
use lazybones.Store.Error.{StoreError}
use lazybones.Store.Error as Store
use lazybones.Auth.Session.{AuthError, missing_capability, wrong_task}

-- crates/lazybones-store/src/asset/blob.rs
pub data AssetError : Type 0 where
  blob_not_found io : String → AssetError

-- crates/lazybones-engine/src/scheduler/issue.rs
pub data IssueError : Type 0 where
  standalone task_not_found not_linked bad_link auth gh : String → IssueError
  store : StoreError → IssueError

-- crates/lazybones-engine/src/sync/error.rs
pub data SyncError : Type 0 where
  unconfigured : SyncError
  gh : String → SyncError
  store : StoreError → SyncError

-- crates/lazybones-jobs/src/error.rs
pub data JobError : Type 0 where
  unknown duplicate : String → JobError
  job_failed join : (job message : String) → JobError

pub data ApiError : Type 0 where
  unauthorized not_found : ApiError
  forbidden : AuthError → ApiError
  store : StoreError → ApiError
  asset : AssetError → ApiError
  gh render bad_request conflict extension internal : String → ApiError

pub data StatusCode : Type 0 where
  bad_request unauthorized forbidden not_found conflict : StatusCode
  internal_server_error bad_gateway : StatusCode

-- What the errors say of themselves.
abbrev auth_message : AuthError → String
auth_message (missing_capability name) = "missing capability: " ++ name
auth_message (wrong_task id) = "session may not act on task " ++ id

abbrev asset_message : AssetError → String
asset_message (AssetError.blob_not_found sha) = "blob not found: " ++ sha
asset_message (AssetError.io e) = "blob io failed: " ++ e

abbrev pub issue_message : IssueError → String
unfolding Store.to_string
issue_message (IssueError.standalone id) =
    "task `" ++ id ++ "` is standalone (no workflow); issue actions need a repo"
issue_message (IssueError.task_not_found id) = "task `" ++ id ++ "` not found"
issue_message (IssueError.not_linked id) = "task `" ++ id ++ "` has no linked issue"
issue_message (IssueError.bad_link link) = "`" ++ link ++ "` is not a valid issue URL or #number"
issue_message (IssueError.auth e) = "GitHub CLI unavailable or not authenticated: " ++ e
issue_message (IssueError.gh e) = "github error: " ++ e
issue_message (IssueError.store e) = "store error: " ++ Store.to_string e

abbrev pub job_message : JobError → String
job_message (JobError.unknown name) = "no job registered under `" ++ name ++ "`"
job_message (JobError.duplicate name) = "a job is already registered under `" ++ name ++ "`"
job_message (JobError.job_failed job message) = "job `" ++ job ++ "` failed: " ++ message
job_message (JobError.join job message) = "job `" ++ job ++ "` did not complete: " ++ message

unfoldable pub message : ApiError → String
unfolding Store.to_string
message ApiError.unauthorized = "unauthorized"
message (ApiError.forbidden e) = auth_message e
message (ApiError.store e) = Store.to_string e
message ApiError.not_found = "not found"
message (ApiError.gh e) = e
message (ApiError.asset e) = asset_message e
message (ApiError.render e) = e
message (ApiError.bad_request e) = e
message (ApiError.conflict e) = e
message (ApiError.extension e) = e
message (ApiError.internal e) = e

-- How the errors of the other crates become errors of the surface.
unfoldable pub from_issue : IssueError → ApiError
from_issue (IssueError.standalone id) =
    ApiError.bad_request (issue_message (IssueError.standalone id))
from_issue (IssueError.bad_link link) =
    ApiError.bad_request (issue_message (IssueError.bad_link link))
from_issue (IssueError.task_not_found id) = ApiError.not_found
from_issue (IssueError.not_linked id) = ApiError.not_found
from_issue (IssueError.auth e) = ApiError.bad_request (issue_message (IssueError.auth e))
from_issue (IssueError.gh e) = ApiError.gh e
from_issue (IssueError.store e) = ApiError.store e

unfoldable pub from_sync : SyncError → ApiError
from_sync SyncError.unconfigured =
    ApiError.conflict "content sync is not configured (set a remote in Settings)"
from_sync (SyncError.gh e) = ApiError.gh e
from_sync (SyncError.store e) = ApiError.store e

unfoldable pub from_job : JobError → ApiError
from_job (JobError.unknown name) = ApiError.not_found
from_job e = ApiError.internal (job_message e)

abbrev status_of_store : StoreError → StatusCode
status_of_store (Store.task_not_found id) = StatusCode.not_found
status_of_store (Store.template_not_found id) = StatusCode.not_found
status_of_store (Store.skill_not_found id) = StatusCode.not_found
status_of_store (Store.run_not_found id) = StatusCode.not_found
status_of_store (Store.agent_not_found id) = StatusCode.not_found
status_of_store (Store.document_not_found id) = StatusCode.not_found
status_of_store (Store.asset_not_found id) = StatusCode.not_found
status_of_store (Store.branding_not_found id) = StatusCode.not_found
status_of_store (Store.source_not_found id) = StatusCode.not_found
status_of_store (Store.extension_not_found id) = StatusCode.not_found
status_of_store (Store.illegal_transition task from to) = StatusCode.conflict
status_of_store (Store.task_exists id) = StatusCode.conflict
status_of_store (Store.template_exists id) = StatusCode.conflict
status_of_store (Store.skill_exists id) = StatusCode.conflict
status_of_store (Store.run_exists id) = StatusCode.conflict
status_of_store (Store.agent_exists id) = StatusCode.conflict
status_of_store (Store.document_exists id) = StatusCode.conflict
status_of_store (Store.branding_exists id) = StatusCode.conflict
status_of_store (Store.extension_exists id) = StatusCode.conflict
status_of_store _ = StatusCode.internal_server_error

abbrev status_of_asset : AssetError → StatusCode
status_of_asset (AssetError.blob_not_found sha) = StatusCode.not_found
status_of_asset (AssetError.io e) = StatusCode.internal_server_error

unfoldable pub status_of : ApiError → StatusCode
status_of ApiError.unauthorized = StatusCode.unauthorized
status_of (ApiError.forbidden e) = StatusCode.forbidden
status_of (ApiError.store e) = status_of_store e
status_of (ApiError.gh e) = StatusCode.bad_gateway
status_of (ApiError.asset e) = status_of_asset e
status_of (ApiError.render e) = StatusCode.internal_server_error
status_of ApiError.not_found = StatusCode.not_found
status_of (ApiError.bad_request e) = StatusCode.bad_request
status_of (ApiError.conflict e) = StatusCode.conflict
status_of (ApiError.extension e) = StatusCode.bad_request
status_of (ApiError.internal e) = StatusCode.internal_server_error

-- The status of an answer, and the text under the key `error` of its body.
unfoldable pub into_response : ApiError → StatusCode × String
unfolding message status_of
into_response e = (status_of e, message e)
