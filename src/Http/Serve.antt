-- ===== src/Http/Serve.antt =====
-- internal/httpapi: the middleware of router.go, auth_handlers.go, admin_handlers.go and
-- ratelimit.go around the handlers, and what is recorded of a request.
use Prim.Native.Char.{code}
use Prim.Native.String.{◌++◌ as append}
use cubesync.Prelude.{
  ℕ, String, Bool, true, false, not, ◌&&◌, ◌||◌, Option, none, some, List, [], ◌∷◌, ◌++◌,
  if◌then◌else◌, str_eq, ◌==◌, any, ℤ, pos,
}
use cubesync.Accounts.Types.{AccessClaims}
use cubesync.Accounts.AccessTokens.{parse_access_token}
use cubesync.ClientIp.{Net, HttpRequest, client_ip}
use cubesync.RateLimit.{Limiters, Visitors, visit}
use cubesync.Admin.{Metric, ErrorEvent}
use cubesync.Admin.Collector.{request_metric, request_error}
use cubesync.Http.Replies.{
  Payload, empty, error_body, limited_body, status_body, version_body, session_body, profile_body,
  sync_body, snapshot_body, stats_body, sessions_body, solves_body, overview_body, series_body,
  types_body, errors_body, Reply, reply, error_reply,
}
use cubesync.Http.Endpoints.{
  Endpoint, Guard, auth_limit, authenticate, require_verified, require_admin, guards, pattern_of,
}
use cubesync.Http.Services.{App, Principal, nobody, World, Handler}
use cubesync.Http.Handlers.{handle}

pub record Incoming (Raw : Type 0) : Type 0 where
  pub method : String
  pub endpoint : Endpoint Raw
  pub authorization : String
  pub origin : String
  pub peer : HttpRequest
  -- the time it takes, in nanoseconds
  pub duration : ℤ

-- `equal_fold` is strings.EqualFold.
pub record Gate (L : Type 0) : Type 0 where
  pub equal_fold : String → String → Bool
  pub net : Net
  pub trusted_proxies : List ℕ
  pub limiters : Limiters L
  pub allowed_origins : List String

pub record Served (Raw F L : Type 0) : Type 0 where
  pub reply : Reply Raw F
  pub headers : List (String × String)
  pub world : World Raw
  pub visitors : Visitors L
  -- what writeError and accessLog record
  pub error : Option ErrorEvent
  pub metric : Option Metric

-- strings.Cut at the first space; `none` is where there is none.
abbrev pub after_front : String → Option (String × String) → Option (String × String)
after_front front none = none
after_front front (some (a, b)) = some (append front a, b)

abbrev pub cut_space : String → Option (String × String)
cut_space String.[] = none
cut_space (String.◌∷◌ c s) =
    let rest = cut_space s in
    if code c == 32 then some ("", s) else after_front (String.◌∷◌ c "") rest

abbrev pub security_headers : List (String × String)
security_headers =
    ("X-Content-Type-Options", "nosniff")
    ∷ ("X-Frame-Options", "DENY")
    ∷ ("Referrer-Policy", "no-referrer")
    ∷ ("Cache-Control", "no-store")
    ∷ []

-- The headers of cors; an origin that is not configured gets none.
abbrev pub cors_headers : List String → String → List (String × String)
cors_headers allowed origin =
    if not (str_eq origin "") && any (λ o. str_eq o origin) allowed
    then ("Access-Control-Allow-Origin", origin)
      ∷ ("Vary", "Origin")
      ∷ ("Access-Control-Allow-Headers", "Authorization, Content-Type, X-Sync-Protocol")
      ∷ ("Access-Control-Allow-Methods", "GET, POST, PUT, DELETE, OPTIONS")
      ∷ []
    else []

module _ {Raw F : Type 0} where
  abbrev pub unauthorized : Reply Raw F
  unauthorized = error_reply 401 "unauthorized" "a valid bearer token is required"

  -- What writeError records.
  abbrev pub error_of : Bool → Principal → String → String → ℕ → Payload Raw F → Option ErrorEvent
  error_of shutdown p method route status (error_body code message) =
      request_error shutdown p.user_id method route (pos status) code message
  error_of shutdown p method route status (limited_body code text) = none
  error_of shutdown p method route status (status_body t) = none
  error_of shutdown p method route status (version_body name v) = none
  error_of shutdown p method route status (session_body b) = none
  error_of shutdown p method route status (profile_body b) = none
  error_of shutdown p method route status (sync_body b) = none
  error_of shutdown p method route status (snapshot_body b) = none
  error_of shutdown p method route status (stats_body b) = none
  error_of shutdown p method route status (sessions_body b) = none
  error_of shutdown p method route status (solves_body b) = none
  error_of shutdown p method route status (overview_body b) = none
  error_of shutdown p method route status (series_body b) = none
  error_of shutdown p method route status (types_body b) = none
  error_of shutdown p method route status (errors_body b) = none
  error_of shutdown p method route status empty = none

  -- The headers that a reply sets itself.
  abbrev pub own_headers : Payload Raw F → List (String × String)
  own_headers empty = []
  own_headers (limited_body code text) =
      ("Retry-After", "60") ∷ ("Content-Type", "application/json") ∷ []
  own_headers (error_body code text) = ("Content-Type", "application/json") ∷ []
  own_headers (status_body t) = ("Content-Type", "application/json") ∷ []
  own_headers (version_body name v) = ("Content-Type", "application/json") ∷ []
  own_headers (session_body b) = ("Content-Type", "application/json") ∷ []
  own_headers (profile_body b) = ("Content-Type", "application/json") ∷ []
  own_headers (sync_body b) = ("Content-Type", "application/json") ∷ []
  own_headers (snapshot_body b) = ("Content-Type", "application/json") ∷ []
  own_headers (stats_body b) = ("Content-Type", "application/json") ∷ []
  own_headers (sessions_body b) = ("Content-Type", "application/json") ∷ []
  own_headers (solves_body b) = ("Content-Type", "application/json") ∷ []
  own_headers (overview_body b) = ("Content-Type", "application/json") ∷ []
  own_headers (series_body b) = ("Content-Type", "application/json") ∷ []
  own_headers (types_body b) = ("Content-Type", "application/json") ∷ []
  own_headers (errors_body b) = ("Content-Type", "application/json") ∷ []

-- A request at a guard: let through, with what is known of its bearer, or answered.
pub data Passage (Raw F : Type 0) : Type 0 where
  passes : Principal → Passage Raw F
  stops : Principal → Reply Raw F → Passage Raw F

module _ {Raw F L : Type 0} (app : App Raw F) (gate : Gate L) where
  abbrev pub with_claims : Option (ℕ × AccessClaims) → Passage Raw F
  with_claims none = stops nobody unauthorized
  with_claims (some (user, claims)) =
      passes
        (record { user_id = user; email_verified = claims.email_verified; role = claims.user_role })

  abbrev pub with_parts : Option (String × String) → Passage Raw F
  with_parts none = stops nobody unauthorized
  with_parts (some (scheme, token)) =
      if not (gate.equal_fold scheme "Bearer") || str_eq token ""
      then stops nobody unauthorized
      else with_claims (parse_access_token app.auth app.libs app.auth.now token)

  unfoldable pub authenticated : String → Passage Raw F
  unfolding parse_access_token
  authenticated header = with_parts (cut_space header)

  abbrev pub at_verified : Principal → Passage Raw F
  at_verified p =
      if p.email_verified
      then passes p
      else stops p (error_reply 403 "email_not_verified" "verify your email before synchronizing")

  abbrev pub at_admin : Principal → Passage Raw F
  at_admin p =
      if str_eq p.role "admin"
      then passes p
      else stops p (error_reply 403 "forbidden" "admin access is required")

  abbrev pub and_then : Passage Raw F → (Principal → Passage Raw F) → Passage Raw F
  and_then (passes p) rest = rest p
  and_then (stops p r) rest = stops p r

  -- The guards of an endpoint from the outside in; `allowed` is the answer of the rate limiter.
  unfoldable pub pass_guards : Bool → String → List Guard → Principal → Passage Raw F
  unfolding authenticated
  pass_guards allowed header [] p = passes p
  pass_guards allowed header (auth_limit ∷ gs) p =
      let rest = pass_guards allowed header gs p in
      if allowed
      then rest
      else stops p (reply 429 (limited_body "rate_limited" "too many requests"))
  pass_guards allowed header (authenticate ∷ gs) p =
      and_then (authenticated header) (pass_guards allowed header gs)
  pass_guards allowed header (require_verified ∷ gs) p =
      and_then (at_verified p) (pass_guards allowed header gs)
  pass_guards allowed header (require_admin ∷ gs) p =
      and_then (at_admin p) (pass_guards allowed header gs)

  abbrev pub at_handler : Endpoint Raw → Passage Raw F → Handler Raw F
  at_handler e (passes p) w = handle app e p w
  at_handler e (stops p r) w = (r, w)

  abbrev pub bearer_of : Passage Raw F → Principal
  bearer_of (passes p) = p
  bearer_of (stops p r) = p

  -- Whether the endpoint counts requests by address.
  abbrev pub is_limited : List Guard → Bool
  is_limited [] = false
  is_limited (auth_limit ∷ gs) = true
  is_limited (authenticate ∷ gs) = is_limited gs
  is_limited (require_verified ∷ gs) = is_limited gs
  is_limited (require_admin ∷ gs) = is_limited gs

  abbrev pub limiter_answer : Bool → HttpRequest → Visitors L → Bool × Visitors L
  limiter_answer false peer visitors = (true, visitors)
  limiter_answer true peer visitors =
      visit gate.limiters app.auth.now (client_ip gate.net gate.trusted_proxies peer) visitors

  abbrev pub passage_of : Bool → Incoming Raw → Passage Raw F
  passage_of allowed i = pass_guards allowed i.authorization (guards i.endpoint) nobody

  abbrev pub served :
      Bool
      → String
      → Incoming Raw
      → Principal
      → Visitors L
      → Reply Raw F × World Raw
      → Served Raw F L
  served shutdown route i p visitors r = record {
    reply = r.0;
    headers =
        security_headers ++ (cors_headers gate.allowed_origins i.origin ++ own_headers r.0.payload);
    world = r.1;
    visitors = visitors;
    error = error_of shutdown p i.method route r.0.status r.0.payload;
    metric = request_metric shutdown app.auth.now i.method route (pos r.0.status) i.duration;
  }

  -- One request, and what is recorded of it. A preflight is answered before it reaches a route.
  unfoldable pub serve : Bool → Incoming Raw → World Raw → Visitors L → Served Raw F L
  unfolding pass_guards handle guards visit client_ip pattern_of request_metric request_error
  serve shutdown i w visitors =
      let answer = limiter_answer (is_limited (guards i.endpoint)) i.peer visitors in
      let passage = passage_of answer.0 i in
      if str_eq i.method "OPTIONS"
      then served shutdown "" i nobody visitors (reply 204 empty, w)
      else served shutdown (pattern_of i.endpoint) i (bearer_of passage) answer.1
          (at_handler i.endpoint passage w)
