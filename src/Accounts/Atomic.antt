-- ===== src/Accounts/Atomic.antt =====
-- Calls of the accounts that fail and leave no trace.
use cubesync.Prelude.{◌≡◌, String, false, Option, none, some, if_both, is_some, str_eq}
use cubesync.Store.{
  Db, User, auth_error, exec, Result, ok, err, Query, Conn, Backend, M, pure, optional, transaction,
}
use cubesync.Store.Keeps.{Keeps, Keeps-pure, Keeps-raise, Keeps-exec, Keeps-optional}
use cubesync.Store.Entities.{row_or_none}
use cubesync.Store.Undone.{
  Undone, transaction-Undone, bind_same-Undone, bind_last-Undone, raise-Undone,
}
use cubesync.Store.Users.{get_user_by_identity, get_user_by_email}
use cubesync.Sync.Convert.{or_fail}
use cubesync.Accounts.Types.{AuthSession, AuthService, Libraries, Outside, invalid_token}
use cubesync.Accounts.Password.{validate_password, hash_password}
use cubesync.Accounts.Sessions.{issue_session}
use cubesync.Accounts.OneTime.{
  raise_password, consume_body, consume_one_time_token, verify_email, reset_password,
  normalize_email,
}
use cubesync.Accounts.OneTime.Single.{Use, verification, new_password, redeem}
use cubesync.Accounts.Register.{valid_email, check_email, create_admin_body, create_admin}
use cubesync.Accounts.Provider.{FederatedInput, FederatedIdentity, Oidc, verify}
use cubesync.Accounts.Federated.{
  or_error, account_link_required, claim_unverified_account, with_existing, with_identity,
  federated_login,
}

module _ {Raw : Type 0} {P : Db Raw → Type 0} where
  raise_password-Keeps : (o : Option String) → Keeps P (raise_password o)
  raise_password-Keeps none = Keeps-pure tt
  raise_password-Keeps (some m) = Keeps-raise _

  or_fail-Keeps : {A : Type 0} (o : Option A) → Keeps P (or_fail o)
  unfolding or_fail
  or_fail-Keeps none = Keeps-raise _
  or_fail-Keeps (some a) = Keeps-pure a

  or_error-Keeps : {A : Type 0} (r : Result A) → Keeps P (or_error r)
  unfolding or_error
  or_error-Keeps (ok a) = Keeps-pure a
  or_error-Keeps (err e) = Keeps-raise e

  look-Keeps :
      {A : Type 0} (backend : Backend Raw) (q : Query) (look : Db Raw → Option A)
      → Keeps P (optional (exec backend q λ db. row_or_none (look db) db))
  unfolding row_or_none
  look-Keeps {A} backend q look =
      Keeps-optional _ (Keeps-exec backend q _ (λ db h. same db (look db) h))
    where
      same : (db : Db Raw) (o : Option A) → P db → P (row_or_none o db).1
      same db none h = h
      same db (some a) h = h

  check_email-Keeps :
      (s : AuthService) (libs : Libraries) (backend : Backend Raw) (out : Outside) (email : String)
      → Keeps P (check_email s libs backend out email)
  check_email-Keeps s libs backend out email =
      if_both (Keeps P) (valid_email libs email) (Keeps-pure tt)
        (Keeps-raise (auth_error "invalid_email" "email address is invalid"))

module _ {Raw : Type 0} (s : AuthService) (libs : Libraries) (oidc : Oidc) (backend : Backend Raw)
    (out : Outside) (replied : (db : Db Raw) → backend.fault Query.commit_reply db ≡ false) where
  consume-Undone :
      (raw kind : String) (apply : _) (c : Conn Raw)
      → Undone c.db (consume_one_time_token s libs backend out raw kind apply c)
  unfolding consume_one_time_token
  consume-Undone raw kind apply c =
      if_both (λ (m : M Raw AuthSession). Undone c.db (m c)) (str_eq raw "")
        (raise-Undone invalid_token c)
        (transaction-Undone backend replied (consume_body s libs backend out raw kind apply) c)

  redeem-Undone :
      (u : Use) (raw : String) (c : Conn Raw) → Undone c.db (redeem s libs backend out u raw c)
  unfolding redeem verify_email reset_password
  redeem-Undone verification raw c = consume-Undone raw "verify_email" _ c
  redeem-Undone (new_password p) raw c =
      bind_same-Undone (raise_password (validate_password p)) _ c (λ b. raise_password-Keeps _)
        (λ _ d.
          bind_same-Undone (or_fail (hash_password libs out.salt p)) _ d (λ b. or_fail-Keeps _)
            (λ hash d'. consume-Undone raw "reset_password" _ d'))

  with_existing-Undone :
      (provider : String) (identity : FederatedIdentity) (o : Option User) (c : Conn Raw)
      → Undone c.db (with_existing s libs oidc backend out provider identity o c)
  unfolding with_existing claim_unverified_account
  with_existing-Undone provider identity none c = transaction-Undone backend replied _ c
  with_existing-Undone provider identity (some u) c =
      if_both (λ (m : M Raw AuthSession). Undone c.db (m c)) (is_some u.email_verified_at)
        (raise-Undone account_link_required c) (transaction-Undone backend replied _ c)

  with_identity-Undone :
      (provider : String) (identity : FederatedIdentity) (o : Option User) (c : Conn Raw)
      → Undone c.db (with_identity s libs oidc backend out provider identity o c)
  unfolding with_identity issue_session get_user_by_email
  with_identity-Undone provider identity (some row) c = transaction-Undone backend replied _ c
  with_identity-Undone provider identity none c =
      bind_same-Undone _ _ c (λ b. look-Keeps backend _ _) (with_existing-Undone provider identity)

  federated_login-Undone :
      (provider : String) (input : FederatedInput) (c : Conn Raw)
      → Undone c.db (federated_login s libs oidc backend out provider input c)
  unfolding federated_login get_user_by_identity
  federated_login-Undone provider input c =
      bind_same-Undone (or_error (verify libs oidc provider input)) _ c (λ b. or_error-Keeps _)
        (λ identity d.
          bind_same-Undone _ _ d (λ b. look-Keeps backend _ _)
            (with_identity-Undone provider identity))

  create_admin-Undone :
      (address password : String) (c : Conn Raw)
      → Undone c.db (create_admin s libs backend out address password c)
  unfolding create_admin pure
  create_admin-Undone address password c =
      bind_same-Undone (check_email s libs backend out (normalize_email libs address)) _ c
        (λ b. check_email-Keeps s libs backend out (normalize_email libs address))
        (λ _ d.
          bind_same-Undone (raise_password (validate_password password)) _ d
            (λ b. raise_password-Keeps _)
            (λ _ d1.
              bind_same-Undone (or_fail (hash_password libs out.salt password)) _ d1
                (λ b. or_fail-Keeps _)
                (λ hash d2.
                  bind_last-Undone
                    (transaction backend
                      (create_admin_body s libs backend out (normalize_email libs address) hash))
                    _ d2 (transaction-Undone backend replied _ d2) (λ row d3 e h. absurd (cc h)))))

  -- VerifyEmail, ResetPassword, FederatedLogin and CreateAdmin, where they fail, leave every table as
  -- it was before the call; only the sequence of the log may have moved. The reply to a commit is
  -- not lost.
  pub sign_in-atomic :
      (u : Use) (raw provider address password : String) (input : FederatedInput) (c : Conn Raw)
      → Undone c.db (redeem s libs backend out u raw c)
        × Undone c.db (federated_login s libs oidc backend out provider input c)
        × Undone c.db (create_admin s libs backend out address password c)
  sign_in-atomic u raw provider address password input c = (
    redeem-Undone u raw c,
    federated_login-Undone provider input c,
    create_admin-Undone address password c,
  )
