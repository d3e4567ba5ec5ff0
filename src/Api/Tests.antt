-- ===== src/Api/Tests.antt =====
-- The answers of the REST surface to errors.
use lazybones.Prelude.{◌≡◌, refl}
use lazybones.Store.Error.{to_string, page_not_found, source_not_found}
use lazybones.Api.Error.{
  StatusCode, ApiError, JobError, into_response, message, status_of, from_job,
}

-- A page that is missing is an error of the server, a source that is missing is not.
page-into_response :
    into_response (ApiError.store (page_not_found "p1"))
    ≡ (StatusCode.internal_server_error, "page not found: p1")
unfolding into_response message status_of to_string
page-into_response = refl

source-into_response :
    into_response (ApiError.store (source_not_found "s1"))
    ≡ (StatusCode.not_found, "source not found: s1")
unfolding into_response message status_of to_string
source-into_response = refl

job-into_response :
    into_response (from_job (JobError.duplicate "sync"))
    ≡ (StatusCode.internal_server_error, "a job is already registered under `sync`")
unfolding into_response message status_of from_job
job-into_response = refl
