-- ===== src/Accounts/Credentials/Signs.antt =====
-- The access token of a session from a sign-in.
use cubesync.Prelude.{ℕ, ◌≡◌, refl, sym, ap, ◌∙◌, String, true, some, is_some}
use cubesync.Store.{ok, Conn, Backend}
use cubesync.Store.Returns.{
  Returns, Returns-of, Returns-raise, Returns-pure, Returns-if, Returns-transaction, Returns-bind,
  Returns-any, Returns-given,
}
use cubesync.Accounts.Types.{AuthSession, Profile, AuthService, Libraries, Outside}
use cubesync.Accounts.AccessTokens.{issue_access_token}
use cubesync.Accounts.Password.{verify_password}
use cubesync.Accounts.Sessions.{issue_session_with_queries, issue_session}
use cubesync.Accounts.Issued.{Returns-or_raise, Returns-or_fail}
use cubesync.Accounts.Credentials.{is_valid, credential_user, login_with, login}
use cubesync.Store.Users.{CredentialRow}

module _ {Raw : Type 0} (s : AuthService) (libs : Libraries) (backend : Backend Raw)
    (out : Outside) where
  -- The access token of a session says that its user's email is verified.
  abbrev pub Signs : AuthSession → Type 0
  Signs session =
      issue_access_token s libs out.claims_id session.user.id true session.user.user_role
      ≡ some session.access_token

  issue-Signs :
      (user : Profile) (family : ℕ)
      → user.email_verified ≡ true
      → Returns
          (λ db. Unit {0})
          (issue_session_with_queries s libs backend out user family)
          (λ session db. Signs session)
  unfolding issue_session_with_queries
  issue-Signs user family verified =
      Returns-bind _ _
        (Returns-or_fail
          {Q = λ access db.
            (issue_access_token s libs out.claims_id user.id true user.user_role ≡ some access)
            × Unit {0}}
          _
          (λ access db e h. (
            ap (λ b. issue_access_token s libs out.claims_id user.id b user.user_role)
                  (sym verified)
                ∙ e,
            tt,
          )))
        (λ access. Returns-bind _ _ (Returns-or_fail _ (λ refresh db e h. h)) (λ refresh.
          Returns-bind _ _ (Returns-given (Returns-any _)) (λ _. Returns-pure _ (λ db h. h.0))))

  login_with-Signs :
      (password : String) (row : CredentialRow)
      → Returns
          (λ db. Unit {0})
          (login_with s libs backend out password row)
          (λ session db. Signs session)
  unfolding login_with issue_session
  login_with-Signs password row =
      Returns-if (is_valid (verify_password libs password row.password_hash)) _ _
        (λ valid.
          Returns-if (is_some row.email_verified_at) _ _
            (λ verified.
              Returns-transaction backend _
                (issue-Signs (credential_user s libs backend out row) out.family_id refl))
            (λ _. Returns-raise _))
        (λ _. Returns-raise _)

  pub login-Signs :
      (email password : String) (c : Conn Raw) (session : AuthSession)
      → (login s libs backend out email password c).0 ≡ ok session
      → Signs session
  unfolding login
  login-Signs email password c session =
      Returns-of {P = λ db. Unit {0}} _ c session
        (Returns-bind _ _ (Returns-any _) (λ o.
          Returns-bind _ _ (Returns-or_raise {Q = λ row db. Unit {0}} _ o (λ row db e h. tt {0}))
            (λ row. login_with-Signs password row)))
        (tt {0})
