-- ===== src/Accounts/Tests.antt =====
-- Examples: an account with a password and tokens, and what the theorems say of its calls.
use cubesync.Prelude.{ℕ, ◌≡◌, ◌≢◌, refl, true, false, none, some, [], ◌∷◌, String, arith}
use cubesync.Store.{
  Backend, OneTimeToken, RefreshToken, ok, err, settle, exec, pure, raise, optional,
  optional_result, continue, ◌>>=◌, commit, finish, transaction,
}
use cubesync.Store.Entities.{row_or_none}
use cubesync.Store.Users.{
  get_user_by_id, set_user_email_verified, get_password_credential_by_email,
  upsert_password_credential, upsert_password_credential_statement,
  create_password_credential_statement, get_user_by_email_for_update, count_user_identities,
  delete_password_credential, create_identity, insert_identity,
}
use cubesync.Store.Tokens.{
  get_refresh_token_for_update, mark_refresh_token_used, create_refresh_token, insert_refresh_token,
  get_one_time_token_for_update, mark_one_time_token_used, revoke_all_user_refresh_tokens,
  invalidate_user_one_time_tokens,
}
use cubesync.Sync.Convert.{or_fail}
use cubesync.Accounts.Types.{AuthService, AuthSession, Outside, user_from_db}
use cubesync.Accounts.AccessTokens.{claims_of, issue_access_token, parse_access_token}
use cubesync.Accounts.AccessTokens.Roundtrip.{parse_access_token-issue_access_token}
use cubesync.Accounts.Password.{hash_text, validate_password, hash_password, verify_password}
use cubesync.Accounts.Password.Roundtrip.{key, verify_password-hash_password}
use cubesync.Accounts.Sessions.{
  unique_result, or_unique, or_raise, issue_session_with_queries, issue_session,
}
use cubesync.Accounts.OneTime.{
  consume_record, consume_body, consume_one_time_token, set_password_of, reset_password,
}
use cubesync.Accounts.OneTime.Single.{new_password, kind_of, redeem, IsRedeemed, redeem-once}
use cubesync.Accounts.OneTime.Reset.{WithPassword, reset_password-IsResetBy}
use cubesync.Accounts.Refresh.{reissue, rotate, refresh_body, refresh}
use cubesync.Accounts.Refresh.Safety.{IsAuthorised, refresh-IsAuthorised}
use cubesync.Accounts.Refresh.Reuse.{token_reused, was_used, refresh-closes_family}
use cubesync.Accounts.Credentials.{login_with, login, delete_account}
use cubesync.Accounts.Credentials.SignIn.{IsSignedIn, login-IsSignedIn}
use cubesync.Accounts.Credentials.Erase.{Erased, delete_account-Erased}
use cubesync.Accounts.Provider.{
  FederatedInput, FederatedIdentity, IdClaims, Oidc, json_bool, parse_boolean_claim,
  allowed_client_ids, check_claims, check_verified, verify_raw, verify,
}
use cubesync.Accounts.Provider.Sound.{IsVerified, verify-IsVerified}
use cubesync.Accounts.Federated.{
  invalidate_kinds, claim_user, claim_found, claim_body, claim_unverified_account,
}
use cubesync.Accounts.Federated.Claim.{IsClaimed, claim_unverified_account-IsClaimed}
use cubesync.Accounts.Federated.{federated_login}
use cubesync.Accounts.Register.{create_admin}
use cubesync.Store.Undone.{Undone}
use cubesync.Accounts.Atomic.{sign_in-atomic}
use cubesync.Accounts.Examples.{
  libs, service, outside, server, server-IsReliable, spent_token, pool, profile, session_of, claims,
  claims-IsJwt, libs-IsEncoding,
}

abbrev session : AuthSession
session = session_of profile

refreshed : (refresh service libs server outside "old" pool).0 ≡ ok session
unfolding refresh refresh_body rotate reissue get_refresh_token_for_update get_user_by_id
    mark_refresh_token_used create_refresh_token insert_refresh_token issue_session_with_queries
    issue_access_token claims_of user_from_db or_fail or_raise row_or_none optional optional_result
    settle exec pure continue ◌>>=◌ commit finish transaction
refreshed = refl

refresh-IsAuthorised_example :
    (t : RefreshToken) × IsAuthorised service libs server outside 3 pool.db.refresh_tokens t session
      (refresh service libs server outside "old" pool).1.db.refresh_tokens
refresh-IsAuthorised_example =
    refresh-IsAuthorised service libs server outside "old" pool session refreshed

refresh-closes_family_example :
    (refresh service libs server outside "spent" pool).0 ≡ err token_reused
refresh-closes_family_example =
    (refresh-closes_family service libs server outside "spent" pool spent_token server-IsReliable
      refl refl (was_used 1000000000 refl (omega arith))).0

redeemed :
    (redeem service libs server outside (new_password "another password") "mailed" pool).0
    ≡ ok session
unfolding redeem reset_password consume_one_time_token consume_body consume_record set_password_of
    get_one_time_token_for_update mark_one_time_token_used get_user_by_id set_user_email_verified
    upsert_password_credential upsert_password_credential_statement
    create_password_credential_statement revoke_all_user_refresh_tokens create_refresh_token
    insert_refresh_token issue_session_with_queries issue_access_token claims_of user_from_db
    validate_password hash_password or_fail or_raise row_or_none optional optional_result settle
    exec pure raise continue ◌>>=◌ commit finish transaction
redeemed = refl

was_reset :
    (reset_password service libs server outside "mailed" "another password" pool).0 ≡ ok session
unfolding redeem
was_reset = redeemed

redeem-once_example :
    ((t : OneTimeToken) × IsRedeemed service libs server outside 6 "reset_password"
        pool.db.one_time_tokens
        (redeem service libs server outside
          (new_password "another password")
          "mailed"
          pool).1.db.one_time_tokens
        t)
    × ((s' : AuthService) (backend' : Backend ℕ) (out' : Outside) (session' : AuthSession)
        → (redeem s' libs backend' out'
            (new_password "a third password")
            "mailed"
            (redeem service libs server outside
              (new_password "another password")
              "mailed"
              pool).1).0
          ≢ ok session')
unfolding kind_of
redeem-once_example =
    redeem-once service libs server outside (new_password "another password")
      (new_password "a third password") "mailed" pool
      (redeem service libs server outside (new_password "another password") "mailed" pool).1 session
      redeemed refl refl

reset_password-IsResetBy_example :
    WithPassword service libs server outside "another password" session
      (reset_password service libs server outside "mailed" "another password" pool).1.db
reset_password-IsResetBy_example =
    reset_password-IsResetBy service libs server outside "mailed" "another password" pool session
      was_reset

signed_in :
    (login service libs server outside "cuber@example.org" "correct horse" pool).0 ≡ ok session
unfolding login login_with get_password_credential_by_email verify_password issue_session
    create_refresh_token insert_refresh_token issue_session_with_queries issue_access_token
    claims_of or_fail or_raise row_or_none optional optional_result settle exec pure raise continue
    ◌>>=◌ commit finish transaction
signed_in = refl

login-IsSignedIn_example :
    IsSignedIn service libs server outside "cuber@example.org" "correct horse" pool.db session
      (login service libs server outside "cuber@example.org" "correct horse" pool).1.db
login-IsSignedIn_example =
    login-IsSignedIn service libs server outside "cuber@example.org" "correct horse" pool session
      signed_in

delete_account-Erased_example :
    Erased service libs server outside 7 pool.db
      (delete_account service libs server outside 7 pool).0
      (delete_account service libs server outside 7 pool).1.db
delete_account-Erased_example = delete_account-Erased service libs server outside 7 pool

parse_access_token-issue_access_token_example :
    parse_access_token service libs 1500000000000 "signed" ≡ some (7, claims)
unfolding claims_of issue_access_token
parse_access_token-issue_access_token_example =
    parse_access_token-issue_access_token service libs 2 7 true "" "signed" 1500000000000
      claims-IsJwt refl (omega arith) (omega arith)

abbrev stored : String
stored = hash_text libs "ab" (libs.encode_base64 (key libs libs-IsEncoding (1 ∷ []) "word"))

verify_password-hash_password_example :
    (verify_password libs "word" stored ≡ some true)
    × ((other : String)
        → key libs libs-IsEncoding (1 ∷ []) other ≢ key libs libs-IsEncoding (1 ∷ []) "word"
        → verify_password libs other stored ≡ some false)
unfolding hash_password
verify_password-hash_password_example =
    verify_password-hash_password libs libs-IsEncoding (1 ∷ []) "word" stored refl

abbrev input : FederatedInput
input = record {
  id_token = "signed id";
  code = "";
  client_id = "client";
  redirect_uri = "";
  code_verifier = "";
  nonce = "nonce";
}

abbrev id_claims : IdClaims
id_claims = record {
  subject = "subject";
  email = "new@example.org";
  email_verified = json_bool true;
  nonce = "nonce";
  audience = "client" ∷ [];
}

abbrev oidc : Oidc
oidc = record {
  google_client_ids = "client" ∷ [];
  exchange = λ i. none;
  verify_token = λ t. some (some id_claims);
}

abbrev identity : FederatedIdentity
identity = record {
  provider = "google";
  subject = "subject";
  email = "new@example.org";
  email_verified = true;
}

verify-IsVerified_example : IsVerified libs oidc "google" input identity
unfolding verify verify_raw check_verified check_claims parse_boolean_claim allowed_client_ids
verify-IsVerified_example = verify-IsVerified libs oidc "google" input identity refl

abbrev claimed_session : AuthSession
claimed_session = session_of (record profile { id = 9; email = "new@example.org" })

claimed :
    (claim_unverified_account service libs oidc server outside "google" identity pool).0
    ≡ ok claimed_session
unfolding claim_unverified_account claim_body claim_found claim_user invalidate_kinds
    get_user_by_email_for_update count_user_identities delete_password_credential
    revoke_all_user_refresh_tokens invalidate_user_one_time_tokens set_user_email_verified
    create_identity insert_identity unique_result or_unique create_refresh_token
    insert_refresh_token issue_session_with_queries issue_access_token claims_of user_from_db
    or_fail or_raise row_or_none optional optional_result settle exec pure raise continue ◌>>=◌
    commit finish transaction
claimed = refl

claim_unverified_account-IsClaimed_example :
    IsClaimed service libs oidc server outside "new@example.org" pool.db claimed_session
      (claim_unverified_account service libs oidc server outside "google" identity pool).1.db
claim_unverified_account-IsClaimed_example =
    claim_unverified_account-IsClaimed service libs oidc server outside "google" identity pool
      claimed_session claimed

sign_in-atomic_example :
    Undone pool.db
      (redeem service libs server outside (new_password "another password") "mailed" pool)
    × Undone pool.db (federated_login service libs oidc server outside "google" input pool)
    × Undone pool.db
        (create_admin service libs server outside "admin@example.org" "a long password" pool)
sign_in-atomic_example =
    sign_in-atomic service libs oidc server outside (λ db. refl) (new_password "another password")
      "mailed" "google" "admin@example.org" "a long password" input pool
