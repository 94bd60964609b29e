-- ===== src/Http/Endpoints.antt =====
-- internal/httpapi/router.go: NewRouter, the endpoints with what their handlers read of a request,
-- and the middleware that stands before each. A body is what decodeJSON makes of it; `none` is its
-- error. Which pattern a path matches is decided by chi.
use cubesync.Prelude.{String, Option, List, [], ◌∷◌}
use cubesync.Sync.Models.{Request}
use cubesync.Snapshot.{SnapshotRequest}
use cubesync.Accounts.Provider.{FederatedInput}

pub record EmailPassword : Type 0 where
  pub email : String
  pub password : String

pub record TokenPassword : Type 0 where
  pub token : String
  pub new_password : String

pub record PasswordChange : Type 0 where
  pub current_password : String
  pub new_password : String

-- The values of the query of a report.
pub record RangeQuery : Type 0 where
  pub from : String
  pub to : String
  pub interval : String

pub record ErrorsQuery : Type 0 where
  pub before : String
  pub before_id : String
  pub limit : String

pub data Endpoint (Raw : Type 0) : Type 0 where
  live ready version : Endpoint Raw
  register login : Option EmailPassword → Endpoint Raw
  resend_verification verify_email refresh logout forgot_password : Option String → Endpoint Raw
  reset_password : Option TokenPassword → Endpoint Raw
  federated_login link_federated : String → Option FederatedInput → Endpoint Raw
  me delete_account : Endpoint Raw
  change_password : Option PasswordChange → Endpoint Raw
  -- the header X-Sync-Protocol, and the body
  synchronize : String → Option (Request Raw) → Endpoint Raw
  snapshot : Option SnapshotRequest → Endpoint Raw
  stats : String → Endpoint Raw
  list_sessions : String → String → Endpoint Raw
  list_session_solves : String → String → String → Endpoint Raw
  admin_overview : Endpoint Raw
  admin_request_stats admin_request_type_stats : RangeQuery → Endpoint Raw
  admin_error_stats : ErrorsQuery → Endpoint Raw

pub data Guard : Type 0 where
  auth_limit authenticate require_verified require_admin : Guard

module _ {Raw : Type 0} where
  unfoldable pub guards : Endpoint Raw → List Guard
  guards Endpoint.live = []
  guards Endpoint.ready = []
  guards Endpoint.version = []
  guards (Endpoint.register body) = Guard.auth_limit ∷ []
  guards (Endpoint.login body) = Guard.auth_limit ∷ []
  guards (Endpoint.resend_verification body) = Guard.auth_limit ∷ []
  guards (Endpoint.verify_email body) = Guard.auth_limit ∷ []
  guards (Endpoint.refresh body) = Guard.auth_limit ∷ []
  guards (Endpoint.logout body) = Guard.auth_limit ∷ []
  guards (Endpoint.forgot_password body) = Guard.auth_limit ∷ []
  guards (Endpoint.reset_password body) = Guard.auth_limit ∷ []
  guards (Endpoint.federated_login provider body) = Guard.auth_limit ∷ []
  guards (Endpoint.link_federated provider body) = Guard.authenticate ∷ []
  guards Endpoint.me = Guard.authenticate ∷ []
  guards Endpoint.delete_account = Guard.authenticate ∷ []
  guards (Endpoint.change_password body) = Guard.authenticate ∷ []
  guards (Endpoint.synchronize proto body) = Guard.authenticate ∷ Guard.require_verified ∷ []
  guards (Endpoint.snapshot body) = Guard.authenticate ∷ Guard.require_verified ∷ []
  guards (Endpoint.stats event) = Guard.authenticate ∷ Guard.require_verified ∷ []
  guards (Endpoint.list_sessions limit cursor) = Guard.authenticate ∷ Guard.require_verified ∷ []
  guards (Endpoint.list_session_solves id limit cursor) =
      Guard.authenticate ∷ Guard.require_verified ∷ []
  guards Endpoint.admin_overview = Guard.authenticate ∷ Guard.require_admin ∷ []
  guards (Endpoint.admin_request_stats query) = Guard.authenticate ∷ Guard.require_admin ∷ []
  guards (Endpoint.admin_request_type_stats query) = Guard.authenticate ∷ Guard.require_admin ∷ []
  guards (Endpoint.admin_error_stats query) = Guard.authenticate ∷ Guard.require_admin ∷ []

  -- The pattern under which a request is recorded.
  unfoldable pub pattern_of : Endpoint Raw → String
  pattern_of Endpoint.live = "/health/live"
  pattern_of Endpoint.ready = "/health/ready"
  pattern_of Endpoint.version = "/v1"
  pattern_of (Endpoint.register body) = "/v1/auth/register"
  pattern_of (Endpoint.login body) = "/v1/auth/login"
  pattern_of (Endpoint.resend_verification body) = "/v1/auth/email/resend"
  pattern_of (Endpoint.verify_email body) = "/v1/auth/email/verify"
  pattern_of (Endpoint.refresh body) = "/v1/auth/refresh"
  pattern_of (Endpoint.logout body) = "/v1/auth/logout"
  pattern_of (Endpoint.forgot_password body) = "/v1/auth/password/forgot"
  pattern_of (Endpoint.reset_password body) = "/v1/auth/password/reset"
  pattern_of (Endpoint.federated_login provider body) = "/v1/auth/federated/{provider}"
  pattern_of (Endpoint.link_federated provider body) = "/v1/auth/link/{provider}"
  pattern_of Endpoint.me = "/v1/me"
  pattern_of Endpoint.delete_account = "/v1/me"
  pattern_of (Endpoint.change_password body) = "/v1/me/password"
  pattern_of (Endpoint.synchronize proto body) = "/v1/sync"
  pattern_of (Endpoint.snapshot body) = "/v1/snapshot"
  pattern_of (Endpoint.stats event) = "/v1/stats"
  pattern_of (Endpoint.list_sessions limit cursor) = "/v1/sessions"
  pattern_of (Endpoint.list_session_solves id limit cursor) = "/v1/sessions/{id}/solves"
  pattern_of Endpoint.admin_overview = "/v1/admin/stats/overview"
  pattern_of (Endpoint.admin_request_stats query) = "/v1/admin/stats/requests"
  pattern_of (Endpoint.admin_request_type_stats query) = "/v1/admin/stats/request-types"
  pattern_of (Endpoint.admin_error_stats query) = "/v1/admin/stats/errors"
