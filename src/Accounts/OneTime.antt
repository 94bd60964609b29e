-- ===== src/Accounts/OneTime.antt =====
-- internal/auth/service.go: consumeOneTimeToken, VerifyEmail, ResetPassword, ForgotPassword and
-- ResendVerification.
pub mod Single
pub mod Reset
use cubesync.Prelude.{
  ℕ, ◌+◌, String, Bool, true, not, ◌||◌, Option, none, some, ltb, if◌then◌else◌, is_some, str_eq,
}
use cubesync.Store.{
  User, OneTimeToken, auth_error, failed, Backend, M, pure, raise, optional, transaction, ◌>>=◌,
  ◌>>◌,
}
use cubesync.Store.Users.{
  get_user_by_id, get_user_by_email, set_user_email_verified, upsert_password_credential,
}
use cubesync.Store.Tokens.{
  get_one_time_token_for_update, mark_one_time_token_used, invalidate_user_one_time_tokens,
  create_one_time_token, revoke_all_user_refresh_tokens,
}
use cubesync.Sync.Convert.{or_fail}
use cubesync.Accounts.Types.{
  Profile, AuthSession, AuthService, Libraries, Outside, user_from_db, invalid_token,
  verification_token_ttl, password_reset_ttl,
}
use cubesync.Accounts.Password.{validate_password, hash_password}
use cubesync.Accounts.Sessions.{or_raise, issue_session_with_queries}

abbrev pub normalize_email : Libraries → String → String
normalize_email libs value = libs.to_lower (libs.trim_space value)

-- A token of either kind reached the mailbox.
abbrev pub consumed_user : String → User → Profile
consumed_user kind row =
    let user = user_from_db row in
    if str_eq kind "verify_email" || str_eq kind "reset_password"
    then record user { email_verified = true }
    else user

module _ {Raw : Type 0} where
  abbrev pub raise_password : Option String → M Raw (Unit {0})
  raise_password none = pure tt
  raise_password (some message) = raise (auth_error "invalid_password" message)

  abbrev pub mail : Outside → M Raw (Unit {0})
  mail out = if out.delivers then pure tt else raise failed

module _ {Raw : Type 0} (s : AuthService) (libs : Libraries) (backend : Backend Raw)
    (out : Outside) where
  -- What follows the lookup of the token.
  unfoldable pub consume_record :
      String → (OneTimeToken → M Raw (Unit {0})) → OneTimeToken → M Raw AuthSession
  consume_record kind apply t =
      if is_some t.used_at || not (ltb s.now t.expires_at) then raise invalid_token else do
        apply t
        mark_one_time_token_used backend t.id
        row ← get_user_by_id backend t.user_id
        issue_session_with_queries s libs backend out (consumed_user kind row) out.family_id

  unfoldable pub consume_body :
      String → String → (OneTimeToken → M Raw (Unit {0})) → M Raw AuthSession
  consume_body raw kind apply = do
    found ← optional (get_one_time_token_for_update backend (libs.token_hash raw) kind)
    t ← or_raise invalid_token found
    consume_record kind apply t

  unfoldable pub consume_one_time_token :
      String → String → (OneTimeToken → M Raw (Unit {0})) → M Raw AuthSession
  consume_one_time_token raw kind apply =
      if str_eq raw ""
      then raise invalid_token
      else transaction backend (consume_body raw kind apply)

  unfoldable pub verify_email : String → M Raw AuthSession
  verify_email raw =
      consume_one_time_token raw "verify_email" λ t. set_user_email_verified backend t.user_id

  unfoldable pub set_password_of : String → OneTimeToken → M Raw (Unit {0})
  set_password_of hash t =
      set_user_email_verified backend t.user_id
      >> upsert_password_credential backend t.user_id hash
      >> revoke_all_user_refresh_tokens backend t.user_id

  unfoldable pub reset_password : String → String → M Raw AuthSession
  reset_password raw password = do
    raise_password (validate_password password)
    hash ← or_fail (hash_password libs out.salt password)
    consume_one_time_token raw "reset_password" (set_password_of hash)

  -- The earlier tokens of the kind are used up, and a new one is mailed.
  unfoldable pub replace_token : String → ℕ → User → M Raw (Unit {0})
  replace_token kind ttl user = do
    raw ← or_fail out.raw_token
    transaction backend (
        invalidate_user_one_time_tokens backend user.id kind
        >> create_one_time_token backend out.token_id user.id kind (libs.token_hash raw)
            (s.now + ttl))
    mail out

  unfoldable pub forgot_found : Option User → M Raw (Unit {0})
  forgot_found none = pure tt
  forgot_found (some user) = replace_token "reset_password" password_reset_ttl user

  unfoldable pub forgot_password : String → M Raw (Unit {0})
  forgot_password email =
      optional (get_user_by_email backend (normalize_email libs email)) >>= forgot_found

  unfoldable pub resend_found : Option User → M Raw (Unit {0})
  resend_found none = pure tt
  resend_found (some user) =
      if is_some user.email_verified_at
      then pure tt
      else replace_token "verify_email" verification_token_ttl user

  unfoldable pub resend_verification : String → M Raw (Unit {0})
  resend_verification email =
      optional (get_user_by_email backend (normalize_email libs email)) >>= resend_found
