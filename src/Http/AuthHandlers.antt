-- ===== src/Http/AuthHandlers.antt =====
-- internal/httpapi/auth_handlers.go: the handlers of the accounts.
use cubesync.Prelude.{String, Option}
use cubesync.Accounts.Provider.{FederatedInput}
use cubesync.Accounts.Register as Register
use cubesync.Accounts.Credentials as Credentials
use cubesync.Accounts.OneTime as OneTime
use cubesync.Accounts.Refresh as Refresh
use cubesync.Accounts.Federated as Federated
use cubesync.Http.Replies.{profile_body, reply, write_auth_error, write_internal}
use cubesync.Http.Endpoints.{EmailPassword, TokenPassword, PasswordChange}
use cubesync.Http.Services.{
  App, Principal, Handler, respond, with_body, session_reply, no_content, accepted_as,
}

module _ {Raw F : Type 0} (app : App Raw F) where
  abbrev pub handle_register : Option EmailPassword → Handler Raw F
  handle_register body = with_body body λ b.
      respond (Register.register app.auth app.libs app.backend app.out b.email b.password)
        (accepted_as "verification_required") write_auth_error

  abbrev pub handle_login : Option EmailPassword → Handler Raw F
  handle_login body = with_body body λ b.
      respond (Credentials.login app.auth app.libs app.backend app.out b.email b.password)
        session_reply write_auth_error

  abbrev pub handle_resend_verification : Option String → Handler Raw F
  handle_resend_verification body = with_body body λ email.
      respond (OneTime.resend_verification app.auth app.libs app.backend app.out email)
        (accepted_as "accepted") write_auth_error

  abbrev pub handle_verify_email : Option String → Handler Raw F
  handle_verify_email body = with_body body λ token.
      respond (OneTime.verify_email app.auth app.libs app.backend app.out token) session_reply
        write_auth_error

  abbrev pub handle_refresh : Option String → Handler Raw F
  handle_refresh body = with_body body λ token.
      respond (Refresh.refresh app.auth app.libs app.backend app.out token) session_reply
        write_auth_error

  abbrev pub handle_logout : Option String → Handler Raw F
  handle_logout body = with_body body λ token.
      respond (Refresh.logout app.auth app.libs app.backend app.out token) no_content
        write_auth_error

  abbrev pub handle_forgot_password : Option String → Handler Raw F
  handle_forgot_password body = with_body body λ email.
      respond (OneTime.forgot_password app.auth app.libs app.backend app.out email)
        (accepted_as "accepted") write_auth_error

  abbrev pub handle_reset_password : Option TokenPassword → Handler Raw F
  handle_reset_password body = with_body body λ b.
      respond (OneTime.reset_password app.auth app.libs app.backend app.out b.token b.new_password)
        session_reply write_auth_error

  abbrev pub handle_federated_login : String → Option FederatedInput → Handler Raw F
  handle_federated_login provider body = with_body body λ b.
      respond (Federated.federated_login app.auth app.libs app.oidc app.backend app.out provider b)
        session_reply write_auth_error

  abbrev pub handle_link_federated : Principal → String → Option FederatedInput → Handler Raw F
  handle_link_federated p provider body = with_body body λ b.
      respond
        (Federated.link_federated app.auth app.libs app.oidc app.backend app.out p.user_id provider
          b)
        no_content write_auth_error

  abbrev pub handle_me : Principal → Handler Raw F
  handle_me p =
      respond (Credentials.user app.auth app.libs app.backend app.out p.user_id)
        (λ u. reply 200 (profile_body u)) (write_internal "request could not be completed")

  abbrev pub handle_delete_account : Principal → Handler Raw F
  handle_delete_account p =
      respond (Credentials.delete_account app.auth app.libs app.backend app.out p.user_id)
        no_content (write_internal "request could not be completed")

  abbrev pub handle_change_password : Principal → Option PasswordChange → Handler Raw F
  handle_change_password p body = with_body body λ b.
      respond
        (Credentials.change_password app.auth app.libs app.backend app.out p.user_id
          b.current_password b.new_password)
        no_content write_auth_error
