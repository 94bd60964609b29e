-- ===== src/Accounts/Credentials.antt =====
-- internal/auth/service.go: Login, SetPassword, ChangePassword, DeleteAccount and User.
pub mod SignIn
pub mod Signs
pub mod Erase
use cubesync.Prelude.{
  ℕ, String, true, false, Option, none, some, Bool, if◌then◌else◌, is_some, str_eq,
}
use cubesync.Store.{
  User, PasswordCredential, Error, auth_error, Backend, M, pure, raise, optional, ◌>>=◌, ◌>>◌,
}
use cubesync.Store.Users.{
  CredentialRow, get_user_by_id, get_password_credential_by_email,
  get_password_credential_by_user_id, upsert_password_credential, delete_user,
}
use cubesync.Store.Tokens.{revoke_all_user_refresh_tokens}
use cubesync.Sync.Convert.{or_fail}
use cubesync.Accounts.Types.{
  Profile, AuthSession, AuthService, Libraries, Outside, user_from_db, invalid_credentials,
}
use cubesync.Accounts.Password.{validate_password, hash_password, verify_password}
use cubesync.Accounts.Sessions.{or_raise, issue_session}
use cubesync.Accounts.OneTime.{normalize_email, raise_password}

-- err != nil || !valid
abbrev pub is_valid : Option Bool → Bool
is_valid none = false
is_valid (some valid) = valid

module _ {Raw : Type 0} (s : AuthService) (libs : Libraries) (backend : Backend Raw)
    (out : Outside) where
  abbrev pub credential_user : CredentialRow → Profile
  credential_user row = record {
    id = row.id;
    email = row.email;
    email_verified = true;
    user_role = row.user_role;
  }

  unfoldable pub login_with : String → CredentialRow → M Raw AuthSession
  login_with password row =
      if is_valid (verify_password libs password row.password_hash)
      then (if is_some row.email_verified_at
          then issue_session s libs backend out (credential_user row)
          else raise (auth_error "email_not_verified" "verify your email before signing in"))
      else raise invalid_credentials

  unfoldable pub login : String → String → M Raw AuthSession
  login email password = do
    found ← optional (get_password_credential_by_email backend (normalize_email libs email))
    row ← or_raise invalid_credentials found
    login_with password row

  -- Two statements on the pool, each on its own.
  unfoldable pub set_password : ℕ → String → M Raw (Unit {0})
  set_password user password = do
    raise_password (validate_password password)
    hash ← or_fail (hash_password libs out.salt password)
    upsert_password_credential backend user hash
    revoke_all_user_refresh_tokens backend user

  abbrev pub incorrect_current : Error
  incorrect_current = auth_error "invalid_credentials" "incorrect current password"

  unfoldable pub change_with : ℕ → String → String → PasswordCredential → M Raw (Unit {0})
  change_with user current password row =
      if str_eq current ""
      then raise incorrect_current
      else if is_valid (verify_password libs current row.password_hash)
      then set_password user password
      else raise incorrect_current

  unfoldable pub change_password : ℕ → String → String → M Raw (Unit {0})
  change_password user current password = do
    found ← optional (get_password_credential_by_user_id backend user)
    row ←
        or_raise
          (auth_error "password_not_set"
            "this account has no password; use password reset to create one")
          found
    change_with user current password row

  unfoldable pub delete_account : ℕ → M Raw (Unit {0})
  delete_account user = delete_user backend user

  unfoldable pub user : ℕ → M Raw Profile
  user id = do row ← get_user_by_id backend id; pure (user_from_db row)
