-- ===== src/Http/Allowed.antt =====
-- Who reaches the services.
use mathlib.Core.Path.{subst}
use cubesync.Prelude.{◌≡◌, ◌≢◌, refl, sym, ap, inl, String, Bool, false, str_eq}
use cubesync.RateLimit.{Visitors}
use cubesync.Admin.{has_prefix}
use cubesync.Http.Endpoints.{Endpoint, guards, pattern_of}
use cubesync.Http.Services.{App, nobody, World}
use cubesync.Http.Serve.{
  Incoming, Gate, Served, pass_guards, at_handler, bearer_of, is_limited, limiter_answer,
  passage_of, served, serve,
}
use cubesync.Http.Access.{
  access_of, IsGuarded, str_eq_apart, limited-Guarded, signed_in-Guarded, verified-Guarded,
  admin-Guarded,
}

module _ {Raw F L : Type 0} (app : App Raw F) (gate : Gate L) where
  guards-Guarded :
      (header : String) (w : World Raw) (allowed : Bool) (e : Endpoint Raw)
      → IsGuarded app gate
          (access_of (pattern_of e))
          header
          e
          w
          (at_handler app gate e (pass_guards app gate allowed header (guards e) nobody) w)
  unfolding guards pattern_of access_of has_prefix pass_guards
  guards-Guarded header w allowed Endpoint.live = inl (nobody, refl, refl)
  guards-Guarded header w allowed Endpoint.ready = inl (nobody, refl, refl)
  guards-Guarded header w allowed Endpoint.version = inl (nobody, refl, refl)
  guards-Guarded header w allowed (Endpoint.register body) =
      limited-Guarded app gate header (Endpoint.register body) w allowed
  guards-Guarded header w allowed (Endpoint.login body) =
      limited-Guarded app gate header (Endpoint.login body) w allowed
  guards-Guarded header w allowed (Endpoint.resend_verification body) =
      limited-Guarded app gate header (Endpoint.resend_verification body) w allowed
  guards-Guarded header w allowed (Endpoint.verify_email body) =
      limited-Guarded app gate header (Endpoint.verify_email body) w allowed
  guards-Guarded header w allowed (Endpoint.refresh body) =
      limited-Guarded app gate header (Endpoint.refresh body) w allowed
  guards-Guarded header w allowed (Endpoint.logout body) =
      limited-Guarded app gate header (Endpoint.logout body) w allowed
  guards-Guarded header w allowed (Endpoint.forgot_password body) =
      limited-Guarded app gate header (Endpoint.forgot_password body) w allowed
  guards-Guarded header w allowed (Endpoint.reset_password body) =
      limited-Guarded app gate header (Endpoint.reset_password body) w allowed
  guards-Guarded header w allowed (Endpoint.federated_login provider body) =
      limited-Guarded app gate header (Endpoint.federated_login provider body) w allowed
  guards-Guarded header w allowed (Endpoint.link_federated provider body) =
      signed_in-Guarded app gate header (Endpoint.link_federated provider body) w allowed
  guards-Guarded header w allowed Endpoint.me =
      signed_in-Guarded app gate header Endpoint.me w allowed
  guards-Guarded header w allowed Endpoint.delete_account =
      signed_in-Guarded app gate header Endpoint.delete_account w allowed
  guards-Guarded header w allowed (Endpoint.change_password body) =
      signed_in-Guarded app gate header (Endpoint.change_password body) w allowed
  guards-Guarded header w allowed (Endpoint.synchronize proto body) =
      verified-Guarded app gate header (Endpoint.synchronize proto body) w allowed
  guards-Guarded header w allowed (Endpoint.snapshot body) =
      verified-Guarded app gate header (Endpoint.snapshot body) w allowed
  guards-Guarded header w allowed (Endpoint.stats event) =
      verified-Guarded app gate header (Endpoint.stats event) w allowed
  guards-Guarded header w allowed (Endpoint.list_sessions limit cursor) =
      verified-Guarded app gate header (Endpoint.list_sessions limit cursor) w allowed
  guards-Guarded header w allowed (Endpoint.list_session_solves id limit cursor) =
      verified-Guarded app gate header (Endpoint.list_session_solves id limit cursor) w allowed
  guards-Guarded header w allowed Endpoint.admin_overview =
      admin-Guarded app gate header Endpoint.admin_overview w allowed
  guards-Guarded header w allowed (Endpoint.admin_request_stats query) =
      admin-Guarded app gate header (Endpoint.admin_request_stats query) w allowed
  guards-Guarded header w allowed (Endpoint.admin_request_type_stats query) =
      admin-Guarded app gate header (Endpoint.admin_request_type_stats query) w allowed
  guards-Guarded header w allowed (Endpoint.admin_error_stats query) =
      admin-Guarded app gate header (Endpoint.admin_error_stats query) w allowed

  serve_routed :
      (shutdown : Bool) (i : Incoming Raw) (w : World Raw) (visitors : Visitors L)
      → str_eq i.method "OPTIONS" ≡ false
      → let answer =
          limiter_answer app gate (is_limited app gate (guards i.endpoint)) i.peer visitors in
        let passage = passage_of app gate answer.0 i in
        serve app gate shutdown i w visitors
        ≡ served app gate shutdown
            (pattern_of i.endpoint)
            i
            (bearer_of app gate passage)
            answer.1
            (at_handler app gate i.endpoint passage w)
  unfolding serve
  serve_routed shutdown i w visitors e = simp e

  -- The answer to a request that is no preflight.
  pub serve_answer :
      (shutdown : Bool) (i : Incoming Raw) (w : World Raw) (visitors : Visitors L)
      → i.method ≢ "OPTIONS"
      → let answer =
          limiter_answer app gate (is_limited app gate (guards i.endpoint)) i.peer visitors in
        let s = serve app gate shutdown i w visitors in
        (s.reply, s.world) ≡ at_handler app gate i.endpoint (passage_of app gate answer.0 i) w
  serve_answer shutdown i w visitors routed =
      ap (λ (s : Served Raw F L). (s.reply, s.world))
        (serve_routed shutdown i w visitors (str_eq_apart i.method "OPTIONS" routed))

  -- A request that is no preflight reaches its handler only for a bearer that its path is for: from
  -- /v1/admin on an administrator, from /v1/me and /v1/auth/link on the bearer of a valid token, on
  -- the other paths but the root, the health checks and the sign-in the bearer of one whose email
  -- is verified; the handler then runs for the user of the token. Any other request leaves the
  -- tables as they were, and is answered with 401, 403 or 429.
  pub serve-IsGuarded :
      (shutdown : Bool) (i : Incoming Raw) (w : World Raw) (visitors : Visitors L)
      → i.method ≢ "OPTIONS"
      → let s = serve app gate shutdown i w visitors in
        IsGuarded app gate
          (access_of (pattern_of i.endpoint))
          i.authorization
          i.endpoint
          w
          (s.reply, s.world)
  serve-IsGuarded shutdown i w visitors routed =
      let answer =
        limiter_answer app gate (is_limited app gate (guards i.endpoint)) i.peer visitors in
      subst (IsGuarded app gate (access_of (pattern_of i.endpoint)) i.authorization i.endpoint w)
        (sym (serve_answer shutdown i w visitors routed))
        (guards-Guarded i.authorization w answer.0 i.endpoint)
