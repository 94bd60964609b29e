-- ===== src/Accounts/Register.antt =====
-- internal/auth/service.go: Register and CreateAdmin.
use cubesync.Prelude.{
  ◌+◌, String, Bool, false, ◌&&◌, Option, none, some, leb, if◌then◌else◌, byte_len, str_eq,
}
use cubesync.Store.{User, auth_error, Backend, M, pure, raise, transaction, ◌>>=◌, ◌>>◌}
use cubesync.Store.Users.{create_user, create_admin_user, create_password_credential}
use cubesync.Store.Tokens.{create_one_time_token}
use cubesync.Sync.Convert.{or_fail}
use cubesync.Accounts.Types.{
  Profile, AuthService, Libraries, Outside, user_from_db, verification_token_ttl,
}
use cubesync.Accounts.Password.{validate_password, hash_password}
use cubesync.Accounts.Sessions.{or_unique}
use cubesync.Accounts.OneTime.{normalize_email, raise_password}

abbrev pub is_address : String → Option String → Bool
is_address value none = false
is_address value (some address) = str_eq address value

abbrev pub valid_email : Libraries → String → Bool
valid_email libs value = is_address value (libs.parse_address value) && leb (byte_len value) 254

module _ {Raw : Type 0} (s : AuthService) (libs : Libraries) (backend : Backend Raw)
    (out : Outside) where
  abbrev pub check_email : String → M Raw (Unit {0})
  check_email email =
      if valid_email libs email
      then pure tt
      else raise (auth_error "invalid_email" "email address is invalid")

  abbrev pub unique_email : M Raw User → M Raw User
  unique_email = or_unique (auth_error "email_in_use" "an account already exists for this email")

  unfoldable pub register_body : String → String → String → M Raw (Unit {0})
  register_body email password_hash raw =
      unique_email (create_user backend out.user_id email)
      >> create_password_credential backend out.user_id password_hash
      >> create_one_time_token backend out.token_id out.user_id "verify_email" (libs.token_hash raw)
          (s.now + verification_token_ttl)

  unfoldable pub register : String → String → M Raw (Unit {0})
  register address password = do
    let email = normalize_email libs address
    check_email email
    raise_password (validate_password password)
    password_hash ← or_fail (hash_password libs out.salt password)
    raw ← or_fail out.raw_token
    transaction backend (register_body email password_hash raw)
    if out.delivers
        then pure tt
        else raise (
            auth_error "email_delivery_failed"
              "account created, but verification email could not be sent")

  unfoldable pub create_admin_body : String → String → M Raw User
  create_admin_body email password_hash = do
    row ← unique_email (create_admin_user backend out.user_id email)
    create_password_credential backend out.user_id password_hash
    pure row

  unfoldable pub create_admin : String → String → M Raw Profile
  create_admin address password = do
    let email = normalize_email libs address
    check_email email
    raise_password (validate_password password)
    password_hash ← or_fail (hash_password libs out.salt password)
    row ← transaction backend (create_admin_body email password_hash)
    pure (user_from_db row)
