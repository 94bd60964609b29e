-- ===== src/Http/Handlers.antt =====
-- internal/httpapi: sync_handler.go, snapshot_handler.go, stats_handler.go, history_handler.go and
-- the handlers of router.go, and the handler of each endpoint.
use cubesync.Prelude.{
  ℕ, String, true, false, Option, none, some, if◌then◌else◌, str_eq, ℤ, pos, ltb_ℤ, pos_part,
}
use cubesync.Sync.Models.{Request}
use cubesync.Sync.Service as Sync
use cubesync.Snapshot as Snapshot
use cubesync.Snapshot.{SnapshotRequest}
use cubesync.Statistics.Service as Statistics
use cubesync.History as History
use cubesync.Http.Replies.{
  status_body, version_body, sync_body, snapshot_body, stats_body, sessions_body, solves_body,
  reply, error_reply, write_auth_error, write_internal, write_client_error,
}
use cubesync.Http.Endpoints.{Endpoint}
use cubesync.Http.Services.{App, Principal, Handler, replies, respond, with_body}
use cubesync.Http.AuthHandlers.{
  handle_register, handle_login, handle_resend_verification, handle_verify_email, handle_refresh,
  handle_logout, handle_forgot_password, handle_reset_password, handle_federated_login,
  handle_link_federated, handle_me, handle_delete_account, handle_change_password,
}
use cubesync.Http.AdminHandlers.{
  admin_request_stats, admin_request_type_stats, admin_error_stats, handle_admin_overview,
}

module _ {Raw F : Type 0} (app : App Raw F) where
  abbrev pub handle_live : Handler Raw F
  handle_live = replies (reply 200 (status_body "ok"))

  abbrev pub handle_ready : Handler Raw F
  handle_ready = replies (
      if app.ping
      then reply 200 (status_body "ready")
      else error_reply 503 "not_ready" "database is unavailable")

  abbrev pub handle_version : Handler Raw F
  handle_version = replies (reply 200 (version_body "CubeTimer Sync API" "v1"))

  -- X-Sync-Protocol: a number of at least 1, or 1.
  abbrev pub proto_number : Option ℤ → ℕ
  proto_number none = 1
  proto_number (some n) = if ltb_ℤ n (pos 1) then 1 else pos_part n

  abbrev pub proto_version : String → ℕ
  proto_version header = if str_eq header "" then 1 else proto_number (app.formats.atoi header)

  abbrev pub handle_synchronize : Principal → String → Option (Request Raw) → Handler Raw F
  handle_synchronize p proto body = with_body body λ b.
      respond (Sync.sync app.sync app.codec app.backend p.user_id b (proto_version proto))
        (λ r. reply 200 (sync_body r))
        (write_client_error true "synchronization could not be completed")

  abbrev pub handle_snapshot : Principal → Option SnapshotRequest → Handler Raw F
  handle_snapshot p body = with_body body λ b.
      respond (Snapshot.snapshot app.sync.max_response_bytes app.codec app.backend p.user_id b)
        (λ r. reply 200 (snapshot_body r))
        (write_client_error false "snapshot could not be completed")

  abbrev pub handle_stats : Principal → String → Handler Raw F
  handle_stats p event =
      respond (Statistics.compute_stats app.aggregates app.backend p.user_id event)
        (λ r. reply 200 (stats_body r)) (write_internal "statistics could not be computed")

  abbrev pub handle_list_sessions : Principal → String → String → Handler Raw F
  handle_list_sessions p limit cursor =
      respond (History.list_sessions app.formats app.backend p.user_id limit cursor)
        (λ r. reply 200 (sessions_body r)) (write_client_error false "could not list sessions")

  abbrev pub handle_list_session_solves : Principal → String → String → String → Handler Raw F
  handle_list_session_solves p id limit cursor =
      respond (History.list_session_solves app.formats app.backend p.user_id id limit cursor)
        (λ r. reply 200 (solves_body r)) (write_client_error false "could not list solves")

  -- The handler of each endpoint, for the bearer of the request.
  unfoldable pub handle : Endpoint Raw → Principal → Handler Raw F
  unfolding respond write_auth_error write_client_error admin_request_stats admin_request_type_stats
      admin_error_stats
  handle Endpoint.live p = handle_live
  handle Endpoint.ready p = handle_ready
  handle Endpoint.version p = handle_version
  handle (Endpoint.register body) p = handle_register app body
  handle (Endpoint.login body) p = handle_login app body
  handle (Endpoint.resend_verification body) p = handle_resend_verification app body
  handle (Endpoint.verify_email body) p = handle_verify_email app body
  handle (Endpoint.refresh body) p = handle_refresh app body
  handle (Endpoint.logout body) p = handle_logout app body
  handle (Endpoint.forgot_password body) p = handle_forgot_password app body
  handle (Endpoint.reset_password body) p = handle_reset_password app body
  handle (Endpoint.federated_login provider body) p = handle_federated_login app provider body
  handle (Endpoint.link_federated provider body) p = handle_link_federated app p provider body
  handle Endpoint.me p = handle_me app p
  handle Endpoint.delete_account p = handle_delete_account app p
  handle (Endpoint.change_password body) p = handle_change_password app p body
  handle (Endpoint.synchronize proto body) p = handle_synchronize p proto body
  handle (Endpoint.snapshot body) p = handle_snapshot p body
  handle (Endpoint.stats event) p = handle_stats p event
  handle (Endpoint.list_sessions limit cursor) p = handle_list_sessions p limit cursor
  handle (Endpoint.list_session_solves id limit cursor) p =
      handle_list_session_solves p id limit cursor
  handle Endpoint.admin_overview p = handle_admin_overview app
  handle (Endpoint.admin_request_stats query) p = admin_request_stats app query
  handle (Endpoint.admin_request_type_stats query) p = admin_request_type_stats app query
  handle (Endpoint.admin_error_stats query) p = admin_error_stats app query
