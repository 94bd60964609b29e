-- ===== src/Http/Tests.antt =====
-- An example: a synchronization by the bearer of a token, on the tables of an account.
use cubesync.Prelude.{
  ℕ, ◌+◌, ◌≡◌, ◌≢◌, refl, String, true, false, none, some, [], ◌∷◌, ◌==◌, ltb, byte_len, pos,
  str_eq, arith,
}
use cubesync.Sync.Examples.{Doc, doc_codec, push_request, on_pool}
use cubesync.Sync.Examples as Documents
use cubesync.Accounts.Examples.{
  libs, service, outside, unary, pool, profile, session_of, claims-IsJwt,
}
use cubesync.RateLimit.{no_visitors}
use cubesync.Store.{
  settle, exec, pure, raise, optional, optional_result, continue, ◌>>=◌, commit, finish,
  transaction,
}
use cubesync.Store.Entities.{row_or_none}
use cubesync.Store.Users.{get_password_credential_by_email}
use cubesync.Store.Tokens.{create_refresh_token, insert_refresh_token}
use cubesync.Sync.Convert.{or_fail}
use cubesync.Accounts.Types.{AuthSession}
use cubesync.Accounts.AccessTokens.{claims_of, issue_access_token}
use cubesync.Accounts.Password.{verify_password}
use cubesync.Accounts.Sessions.{or_raise, issue_session_with_queries, issue_session}
use cubesync.Accounts.Credentials.{login_with, login}
use cubesync.ClientIp.{is_trusted_proxy, client_ip}
use cubesync.RateLimit.{visit}
use cubesync.Http.Endpoints.{Endpoint, EmailPassword, guards, pattern_of}
use cubesync.Http.Replies.{session_body}
use cubesync.Http.Services.{App, World, respond}
use cubesync.Http.Handlers.{handle}
use cubesync.Http.Serve.{Incoming, Gate, pass_guards, serve}
use cubesync.Http.SignedIn.{at_time, signed_in, serve-signed_in}
use cubesync.Http.Access.{access_of, IsGuarded}
use cubesync.Http.Allowed.{serve-IsGuarded}

abbrev same : String → String
same t = t

abbrev app : App Doc ℕ
app = record {
  auth = service;
  libs = libs;
  oidc = record { google_client_ids = []; exchange = λ input. none; verify_token = λ token. none };
  backend = Documents.server;
  out = outside;
  sync = Documents.service;
  codec = doc_codec;
  aggregates = record { avg = λ times. 0; stddev_pop = λ times. 0 };
  formats = record {
    format_time = λ n. unary n "";
    parse_time = λ t. some (byte_len t);
    uuid_text = λ n. unary n "";
    parse_uuid = λ t. some (byte_len t);
    atoi = λ t. some (pos (byte_len t));
  };
  texts = record { trim_space = same; to_lower = same };
  sorting = record { date_trunc_day = λ t. t; text_before = λ a b. ltb (byte_len a) (byte_len b) };
  floats = record { float_zero = 0; float_quotient = λ a b. a };
  stats_fault = λ q t. false;
  order_types = λ entries. entries;
  time_rfc3339 = λ t. some (byte_len t);
  parse_int = λ t. some (pos (byte_len t));
  ping = true;
}

-- A limiter that allows five requests.
abbrev gate : Gate ℕ
gate = record {
  equal_fold = str_eq;
  net = record {
    split_host_port = some;
    parse_addr = λ t. some (byte_len t);
    unmap = λ n. n;
    addr_text = λ n. unary n "";
    contains = λ prefix addr. prefix == addr;
    trim_space = same;
  };
  trusted_proxies = [];
  limiters = record { new_limiter = 0; allow = λ now n. (ltb n 5, n + 1) };
  allowed_origins = "https://example.org" ∷ [];
}

abbrev world : World Doc
world = record {
  conn = on_pool;
  stats = record { request_stats_hourly = []; request_errors = []; last_error_id = 0 };
}

abbrev request : Incoming Doc
request = record {
  method = "POST";
  endpoint = Endpoint.synchronize "2" (some push_request);
  authorization = "Bearer signed";
  origin = "https://example.org";
  peer = record { remote_addr = "192.0.2.1"; x_forwarded_for = ""; x_real_ip = "" };
  duration = pos 3000000;
}

posts : request.method ≢ "OPTIONS"
posts e = cc e

serve-IsGuarded_example :
    IsGuarded app gate
      (access_of (pattern_of request.endpoint))
      "Bearer signed"
      request.endpoint
      world
      (
        (serve app gate false request world no_visitors).reply,
        (serve app gate false request world no_visitors).world,
      )
serve-IsGuarded_example = serve-IsGuarded app gate false request world no_visitors posts

-- The tables with the password and the tokens of the account.
abbrev with_account : World Doc
with_account = record world {
  conn = record on_pool {
    db = record on_pool.db {
      users = pool.db.users;
      password_credentials = pool.db.password_credentials;
      refresh_tokens = pool.db.refresh_tokens;
    };
  };
}

abbrev entered : EmailPassword
entered = record { email = "cuber@example.org"; password = "correct horse" }

abbrev sign_in : Incoming Doc
sign_in = record request { endpoint = Endpoint.login (some entered); authorization = "" }

abbrev session : AuthSession
session = session_of profile

answered :
    (serve app gate false sign_in with_account no_visitors).reply.payload ≡ session_body session
unfolding serve guards pass_guards handle respond visit client_ip is_trusted_proxy login login_with
    get_password_credential_by_email verify_password issue_session create_refresh_token
    insert_refresh_token issue_session_with_queries issue_access_token claims_of or_fail or_raise
    row_or_none optional optional_result settle exec pure raise continue ◌>>=◌ commit finish
    transaction
answered = refl

full : session.access_token ≢ ""
full e = cc e

serve-signed_in_example :
    (
      (serve (at_time app 1500000000000) gate false request world no_visitors).reply,
      (serve (at_time app 1500000000000) gate false request world no_visitors).world,
    )
    ≡ handle (at_time app 1500000000000) request.endpoint (signed_in session) world
unfolding claims_of guards
serve-signed_in_example =
    serve-signed_in app gate false sign_in entered with_account no_visitors session posts refl
      answered claims-IsJwt refl full 1500000000000 (omega arith) (omega arith) request world
      no_visitors posts refl refl
