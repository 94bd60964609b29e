-- ===== src/Http/Replies.antt =====
-- internal/httpapi/router.go: what is written to a client, and which error is written how
-- (writeAuthError, writeAdminError and the handlers).
use cubesync.Prelude.{ℕ, String, Bool, ◌||◌, if◌then◌else◌, str_eq}
use cubesync.Store.{
  Error, client_error, auth_error, no_rows, foreign_key_violation, unique_violation, failed,
}
use cubesync.Accounts.Types.{AuthSession, Profile}
use cubesync.Sync.Models.{Response, Solve}
use cubesync.Snapshot.{SnapshotResponse}
use cubesync.Statistics.Service.{StatsResponse}
use cubesync.History.{Paginated, SessionSummary}
use cubesync.Admin.Overview.{Overview}
use cubesync.Admin.Reports.{RequestSeries, RequestTypeSeries}
use cubesync.Admin.Errors.{ErrorLogResponse}

-- The body of a reply. `error_body` is written by writeError, `limited_body` by the rate limiter.
pub data Payload (Raw F : Type 0) : Type 0 where
  empty : Payload Raw F
  error_body limited_body : String → String → Payload Raw F
  status_body : String → Payload Raw F
  version_body : String → String → Payload Raw F
  session_body : AuthSession → Payload Raw F
  profile_body : Profile → Payload Raw F
  sync_body : Response Raw → Payload Raw F
  snapshot_body : SnapshotResponse → Payload Raw F
  stats_body : StatsResponse F → Payload Raw F
  sessions_body : Paginated SessionSummary → Payload Raw F
  solves_body : Paginated Solve → Payload Raw F
  overview_body : Overview → Payload Raw F
  series_body : RequestSeries F → Payload Raw F
  types_body : RequestTypeSeries → Payload Raw F
  errors_body : ErrorLogResponse → Payload Raw F

pub record Reply (Raw F : Type 0) : Type 0 where
  pub status : ℕ
  pub payload : Payload Raw F

abbrev pub auth_status : String → ℕ
auth_status code =
    if str_eq code "invalid_credentials"
      || str_eq code "invalid_refresh_token"
      || str_eq code "invalid_social_token"
      || str_eq code "invalid_social_code"
    then 401
    else if str_eq code "email_not_verified"
    then 403
    else if str_eq code "email_in_use"
        || str_eq code "account_link_required"
        || str_eq code "identity_in_use"
        || str_eq code "provider_already_linked"
        || str_eq code "refresh_token_reused"
        || str_eq code "password_not_set"
    then 409
    else if str_eq code "email_delivery_failed" || str_eq code "provider_not_configured"
    then 503
    else 400

module _ {Raw F : Type 0} where
  abbrev pub reply : ℕ → Payload Raw F → Reply Raw F
  reply status payload = record { status = status; payload = payload }

  abbrev pub error_reply : ℕ → String → String → Reply Raw F
  error_reply status code message = reply status (error_body code message)

  abbrev pub internal_error : String → Reply Raw F
  internal_error text = error_reply 500 "internal_error" text

  unfoldable pub write_auth_error : Error → Reply Raw F
  write_auth_error (auth_error code message) = error_reply (auth_status code) code message
  write_auth_error (client_error code message) = internal_error "request could not be completed"
  write_auth_error no_rows = internal_error "request could not be completed"
  write_auth_error foreign_key_violation = internal_error "request could not be completed"
  write_auth_error unique_violation = internal_error "request could not be completed"
  write_auth_error failed = internal_error "request could not be completed"

  -- A handler for which every error is internal.
  abbrev pub write_internal : String → Error → Reply Raw F
  write_internal text e = internal_error text

  -- The errors of the services of internal/sync; a full resync is asked for with 409.
  unfoldable pub write_client_error : Bool → String → Error → Reply Raw F
  write_client_error conflicts text (client_error code message) =
      error_reply (if conflicts then (if str_eq code "cursor_expired" then 409 else 400) else 400)
        code message
  write_client_error conflicts text (auth_error code message) = internal_error text
  write_client_error conflicts text no_rows = internal_error text
  write_client_error conflicts text foreign_key_violation = internal_error text
  write_client_error conflicts text unique_violation = internal_error text
  write_client_error conflicts text failed = internal_error text
