-- ===== src/Lib.antt =====
-- The cubing-sync backend, a Go server over PostgreSQL to which the devices of a user push sessions
-- and solves, and from which they pull what the other devices changed.
--
-- The parts, and the files that model them:
--
-- - Store: the tables and the statements on them (internal/store/db/sync.sql.go, auth.sql.go,
--   models.go and db.go, db/migrations). Store.Tables has the rows; Store.Exec runs a statement on
--   a connection, on the pool or in a transaction: a statement that fails inside a transaction is
--   undone and aborts it, and then every later statement and the commit fail. Store.Queries,
--   Store.Entities, Store.Users and Store.Tokens have one function for each statement, under its
--   name in snake case, with the keys and foreign keys that the migrations declare. Store.Keeps has
--   the rules for properties of the tables that calls keep, Store.Returns those for what holds when
--   a call returns without an error, Store.Reliable what calls do where no statement fails,
--   Store.Undone what failed calls leave; Store.Bind has what sequences of calls return.
-- - Sync: the service (internal/sync/service.go, models.go, window.go). Sync.Models has the types,
--   Sync.Validate the checks of a mutation, Sync.Convert the conversions between rows and entities,
--   Sync.Sessions applySession, Sync.Solves applySolve, Sync.Apply applyMutation, Sync.Lock
--   advisoryLockKey, Sync.Pages buildChanges and applyByteLimit, and Sync.Service the request:
--   Sync, pullOnly and checkCursorNotExpired. A Go function with early returns is one function for
--   each stage, composed in the order of the code.
-- - Retention: runOnce of the retention service (internal/sync/retention.go), which prunes the log
--   that Sync writes. It uses the same statements, and the same window as checkCursorNotExpired.
-- - Snapshot: the pages of a bootstrap (internal/sync/snapshot.go), over the statements of
--   Store.Keyset (internal/store/db/snapshot.sql.go). The Go functions for sessions and for solves
--   that differ in the type alone are one here: trim_by_bytes and fit_page.
-- - Accounts: the service of internal/auth (service.go, tokens.go, password.go, federated.go).
--   Accounts.Types has its types and the calls of other packages; AccessTokens has IssueAccessToken
--   and ParseAccessToken, Password the hash of a password and its check, Sessions issueSession,
--   Refresh the rotation of refresh tokens and Logout, OneTime the mailed tokens (VerifyEmail,
--   ResetPassword, ForgotPassword, ResendVerification), Register Register and CreateAdmin,
--   Credentials Login, SetPassword, ChangePassword, DeleteAccount and User, Provider Verify of the
--   identity tokens, and Federated FederatedLogin, claimUnverifiedAccount and LinkFederated. Issued
--   has what issueSession leaves in the tables.
-- - Statistics: ComputeStats (internal/sync/retention.go, internal/store/db/stats.sql.go). The
--   module itself has computeAoNFromTimes, Statistics.Service the rest.
-- - History: listSessions and listSessionSolves (internal/httpapi/history_handler.go,
--   internal/store/db/history.sql.go), with their limits and cursors.
-- - Admin: the statistics of requests (internal/admin/service.go, internal/store/db/admin.sql.go,
--   copyfrom.go). The module itself has the routes, Admin.Tables the tables, Admin.Records the
--   statements that write them, Admin.Flush flush, flushErrors and runCleanup, and Admin.Collector
--   RecordRequestAsync, RecordErrorAsync, flushLoop and Shutdown as steps: LoopStep is a round of
--   the loop, CallStep what callers and the clock do between rounds. Admin.Range has resolveRange,
--   Admin.Aggregates the statements of the reports, Admin.Reports RequestStats and
--   RequestTypeStats, Admin.Errors ListErrors, Admin.Overview Overview. Admin.Upserts, Admin.Tally,
--   Admin.Shows and Admin.Written have what the writes do to the tables. request_errors has the id
--   of a user without a foreign key, and keeps it when the account is deleted.
-- - Config: Load (internal/config/config.go). `errs` has what its readers append to the list of
--   errors, `read_config` the record, `check_config` the tests after it.
-- - Http: the endpoints (internal/httpapi/router.go, auth_handlers.go, admin_handlers.go,
--   sync_handler.go, snapshot_handler.go, stats_handler.go, history_handler.go). Http.Endpoints has
--   the routes, with what their handlers read of a request and the middleware before each;
--   Http.Replies the bodies and the statuses of errors (writeAuthError and the handlers' own),
--   Http.Services the record Handler, Http.AuthHandlers, Http.AdminHandlers and Http.Handlers the
--   handlers, Http.Serve authenticate, requireVerified, requireAdmin, securityHeaders, cors and
--   accessLog around them. Http.Handlers.handle calls the services of the parts above.
-- - RateLimit: the table of visitors of the rate limiter, middleware and evictLoop
--   (internal/httpapi/ratelimit.go).
-- - ClientIp: clientIP of the rate limiter (internal/httpapi/ratelimit.go), over net and net/netip,
--   which are the parameter `Net`.
--
-- Sync.Keeps carries a property of the tables from the statements to `sync`: `Closed` says what
-- each statement that writes must keep. Sync.Isolation and Sync.Sound are instances of it.
--
-- Values. A uuid is the number that its bytes spell, and uuid.Nil is 0. A time is a count of
-- nanoseconds since the start of the year 0. A row's version and change id are natural numbers, an
-- update fails at the largest bigint; the numbers of a request are integers. Only the limit of a
-- read is cut to 32 bits, as in the code. A document, json.RawMessage, is of any type `Raw`.
--
-- Parameters. `Codec` is encoding/json on the types that the service marshals, strings.ToLower,
-- fmt.Sprintf and the text of a uuid. `Backend` is the server: its clock, which stands still during
-- a request, what storing as jsonb does to a document, and which statements fail at which contents
-- of the tables, and its function lower. A fault at `commit_reply` is a commit whose reply is lost.
-- `Libraries` is what the accounts call of other packages: SHA-256, argon2, base64, JWT, uuid,
-- net/mail and the trimming and lower case of texts; `Oidc` the exchange of a code and the check of
-- an identity token; `Outside` the random values of a call and whether its mail is delivered.
-- `AuthService` has the server process's clock, which is not that of the database.
--
-- A request is one run of statements: two requests of one user do not interleave here. Pushes of
-- one user are serialized by the advisory lock, which the model takes and which changes no table.
-- The drain of Sync.Drain takes fuel, one more than the number of changes that are left.
--
-- The int64 sums of the request statistics are bit patterns, and a bigint that is exceeded fails its
-- statement; theorems on them ask for room in the columns. The order in which Go ranges over a map
-- is a parameter, of which only is known that it is an order of the entries. `Sorting` is the
-- collation and the time zone of the database, `Floats` the quotient of float64.
--
-- `Formats` is the text of times, uuids and numbers in the history; `Aggregates` the mean and the
-- deviation in floating point.
--
-- `Environment` is os.Getenv and the parsers that Load calls. `Limiters` is the token bucket of
-- golang.org/x/time/rate. `Gate` is strings.EqualFold with the settings of the middleware, and `App`
-- has the parameters of all services; the request of the model, `Incoming`, has the endpoint that
-- chi found for its path, and its body as decodeJSON decoded it.
--
-- Not modelled: the mailer and the limit on concurrent hashes of internal/auth; the matching of
-- paths, request ids, the timeout of a request, the recovery of panics and the compression, which
-- are chi's; the text of JSON bodies; start, shutdown and command line (cmd/api); and the generated
-- API types (internal/apicontract). Log lines, contexts and the tickers are left out.
pub mod Prelude
pub mod Store
pub mod Sync
pub mod Retention
pub mod Snapshot
pub mod ClientIp
pub mod RateLimit
pub mod Http
pub mod History
pub mod Statistics
pub mod Accounts
pub mod Admin
pub mod Config
