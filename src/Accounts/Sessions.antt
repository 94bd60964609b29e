-- ===== src/Accounts/Sessions.antt =====
-- internal/auth/service.go: issueSession and issueSessionWithQueries, and errors of a statement.
use cubesync.Prelude.{ℕ, ◌+◌, ◌/◌, String, Option, none, some}
use cubesync.Store.{
  Error, auth_error, client_error, no_rows, foreign_key_violation, unique_violation, failed, Result,
  ok, err, Conn, Backend, M, pure, raise, transaction, ◌>>=◌, ◌>>◌,
}
use cubesync.Store.Tokens.{create_refresh_token}
use cubesync.Sync.Convert.{or_fail}
use cubesync.Accounts.Types.{Profile, AuthSession, AuthService, Libraries, Outside}
use cubesync.Accounts.AccessTokens.{issue_access_token}

module _ {Raw A : Type 0} where
  unfoldable pub unique_result : Error → Result A × Conn Raw → Result A × Conn Raw
  unique_result e (ok a, c) = (ok a, c)
  unique_result e (err unique_violation, c) = (err e, c)
  unique_result e (err no_rows, c) = (err no_rows, c)
  unique_result e (err foreign_key_violation, c) = (err foreign_key_violation, c)
  unique_result e (err failed, c) = (err failed, c)
  unique_result e (err (client_error k m), c) = (err (client_error k m), c)
  unique_result e (err (auth_error k m), c) = (err (auth_error k m), c)

  -- isUniqueViolation: the error to return in place of a unique violation.
  unfoldable pub or_unique : Error → M Raw A → M Raw A
  unfolding unique_result
  or_unique e m c = unique_result e (m c)

  -- The row of a query, or the error to return where there is none.
  unfoldable pub or_raise : Error → Option A → M Raw A
  or_raise e none = raise e
  or_raise e (some a) = pure a

module _ {Raw : Type 0} (s : AuthService) (libs : Libraries) (backend : Backend Raw)
    (out : Outside) where
  abbrev pub session_of_tokens : String → String → Profile → AuthSession
  session_of_tokens access refresh user = record {
    access_token = access;
    refresh_token = refresh;
    token_type = "Bearer";
    expires_in = s.access_token_ttl / 1000000000;
    user = user;
  }

  unfoldable pub issue_session_with_queries : Profile → ℕ → M Raw AuthSession
  issue_session_with_queries user family = do
    access ←
        or_fail (issue_access_token s libs out.claims_id user.id user.email_verified user.user_role)
    refresh ← or_fail out.refresh_token
    create_refresh_token backend out.refresh_id family user.id (libs.token_hash refresh)
        (s.now + s.refresh_token_ttl)
    pure (session_of_tokens access refresh user)

  -- A new family.
  unfoldable pub issue_session : Profile → M Raw AuthSession
  issue_session user = transaction backend (issue_session_with_queries user out.family_id)
