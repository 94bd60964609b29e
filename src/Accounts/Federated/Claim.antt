-- ===== src/Accounts/Federated/Claim.antt =====
-- What is left of an unverified account that a provider's user claims.
use cubesync.Prelude.{
  ℕ, ◌≡◌, ◌≢◌, refl, sym, ap, ◌∙◌, String, true, false, Option, none, some, [], ◌∷◌, if◌then◌else◌,
  select, find-select-not, is_some, is_some-none, All, All-update_each, All-update_where, length,
  ltb, str_eq, ◌==◌, arith,
}
use cubesync.Store.{Db, User, RefreshToken, OneTimeToken, ok, Conn, Backend}
use cubesync.Store.Users.{
  user_by_email, credential_of, is_credential, get_user_by_email_for_update, count_user_identities,
  delete_password_credential, set_user_email_verified, create_identity, insert_identity,
}
use cubesync.Store.Tokens.{
  is_live_of, revoked, is_pending, used, revoke_all_user_refresh_tokens,
  invalidate_user_one_time_tokens,
}
use cubesync.Store.Returns.{
  Returns, Returns-of, Returns-pure, Returns-raise, Returns-if, Returns-exec, Returns-transaction,
  Returns-optional_look, Returns-bind, Returns-weaken, Returns-assume,
}
use cubesync.Accounts.Types.{AuthSession, AuthService, Libraries, Outside, user_from_db}
use cubesync.Accounts.Issued.{Returns-or_raise, Returns-or_unique, IssuedFrom, issue-From}
use cubesync.Accounts.OneTime.Reset.{ClosedFor}
use cubesync.Accounts.Provider.{FederatedIdentity, Oidc}
use cubesync.Accounts.Federated.{
  identity_in_use, verified_profile, invalidate_kinds, claim_user, claim_found, claim_body,
  claim_unverified_account,
}

-- Used, if the user's and of the kind.
abbrev pub SpentFor : ℕ → String → OneTimeToken → Type 0
SpentFor user kind t = t.user_id ≡ user → str_eq t.kind kind ≡ true → t.used_at ≢ none

-- Nothing that was handed out before opens the account.
pub record IsClosed {Raw : Type 0} (user : ℕ) (db : Db Raw) : Type 0 where
  pub no_password : credential_of user db ≡ none
  pub no_session : All (ClosedFor user) db.refresh_tokens
  pub no_verification : All (SpentFor user "verify_email") db.one_time_tokens
  pub no_reset : All (SpentFor user "reset_password") db.one_time_tokens

module _ {Raw : Type 0} (s : AuthService) (libs : Libraries) (oidc : Oidc) (backend : Backend Raw)
    (out : Outside) where
  revoked_row :
      (user : ℕ) (r : RefreshToken)
      → ClosedFor user (if is_live_of user r then revoked backend r else r)
  revoked_row user r same e = ground arith

  pending_row :
      (user : ℕ) (kind : String) (t : OneTimeToken)
      → SpentFor user kind (if is_pending user kind t then used backend t else t)
  pending_row user kind t same of_kind e = ground arith

  delete-Returns :
      {P : Db Raw → Type 0} (user : ℕ)
      → Returns P (delete_password_credential backend user) (λ _ db. credential_of user db ≡ none)
  unfolding delete_password_credential
  delete-Returns user =
      Returns-exec backend _ _
        (λ db h. find-select-not (is_credential user) db.password_credentials)

  revoke-Returns :
      (user : ℕ)
      → Returns
          (λ db. credential_of user db ≡ none)
          (revoke_all_user_refresh_tokens backend user)
          (λ _ db. (credential_of user db ≡ none) × All (ClosedFor user) db.refresh_tokens)
  unfolding revoke_all_user_refresh_tokens
  revoke-Returns user = Returns-exec backend _ _ (λ db h. (
    h,
    All-update_each (ClosedFor user) (is_live_of user) (revoked backend) db.refresh_tokens
        (revoked_row user),
  ))

  invalidate-Returns :
      (user : ℕ)
      → Returns
          (λ db. (credential_of user db ≡ none) × All (ClosedFor user) db.refresh_tokens)
          (invalidate_kinds s libs oidc backend out user ("verify_email" ∷ "reset_password" ∷ []))
          (λ _. IsClosed user)
  unfolding invalidate_kinds invalidate_user_one_time_tokens
  invalidate-Returns user =
      Returns-bind
        {Q = λ _ db.
          (credential_of user db ≡ none)
          × All (ClosedFor user) db.refresh_tokens
          × All (SpentFor user "verify_email") db.one_time_tokens}
        _ _
        (Returns-exec backend _ _ (λ db h. (
          h.0,
          h.1,
          All-update_each (SpentFor user "verify_email") (is_pending user "verify_email")
              (used backend) db.one_time_tokens (pending_row user "verify_email"),
        )))
        (λ _.
          Returns-bind {Q = λ _. IsClosed user} _ _
            (Returns-exec backend _ _ (λ db h. record {
              no_password = h.0;
              no_session = h.1;
              no_verification =
                  All-update_where {P = SpentFor user "verify_email"}
                    (is_pending user "reset_password") (used backend) db.one_time_tokens
                    (λ t _ _ _ _ e. absurd (cc e)) h.2;
              no_reset =
                  All-update_each (SpentFor user "reset_password")
                    (is_pending user "reset_password") (used backend) db.one_time_tokens
                    (pending_row user "reset_password");
            }))
            (λ _. Returns-pure tt (λ db h. h)))

  verify-IsClosed :
      (user id : ℕ)
      → Returns (IsClosed user) (set_user_email_verified backend id) (λ _. IsClosed user)
  unfolding set_user_email_verified
  verify-IsClosed user id = Returns-exec backend _ _ (λ db h. record {
    no_password = h.no_password;
    no_session = h.no_session;
    no_verification = h.no_verification;
    no_reset = h.no_reset;
  })

  identity-IsClosed :
      (user id owner : ℕ) (provider subject : String) (email : Option String)
      → Returns
          (IsClosed user)
          (create_identity backend id owner provider subject email)
          (λ _. IsClosed user)
  unfolding create_identity insert_identity
  identity-IsClosed user id owner provider subject email =
      Returns-exec backend _ _ (λ db h. ground (arith, unchanged db h))
    where
      unchanged : (db : Db Raw) → IsClosed user db → IsClosed user db
      unchanged db h = h

  -- The account that is claimed, and the tables before the session's refresh token was stored.
  pub record IsClaimed (email : String) (start : Db Raw) (session : AuthSession) (db : Db Raw)
      : Type 0 where
    pub user : User
    pub found : user_by_email backend email start ≡ some user
    pub unverified : user.email_verified_at ≡ none
    pub unlinked : length (select (λ i. i.user_id == user.id) start.identities) ≡ 0
    pub before : Db Raw
    pub closed : IsClosed user.id before
    pub issued :
        IssuedFrom s libs backend out before
          (verified_profile s libs oidc backend out user.id user.email
            (user_from_db user).user_role)
          out.family_id
          session
          db

  claim_user-Returns :
      {P : Db Raw → Type 0} (provider : String) (identity : FederatedIdentity) (user : User)
      → Returns P (claim_user s libs oidc backend out provider identity user) (λ session db.
        (before : Db Raw) × IsClosed user.id before
        × IssuedFrom s libs backend out before
            (verified_profile s libs oidc backend out user.id user.email
              (user_from_db user).user_role)
            out.family_id
            session
            db)
  unfolding claim_user
  claim_user-Returns provider identity user = Returns-bind _ _ (delete-Returns user.id) (λ _.
      Returns-bind _ _ (revoke-Returns user.id) (λ _.
        Returns-bind _ _ (invalidate-Returns user.id) (λ _.
          Returns-bind _ _ (verify-IsClosed user.id user.id) (λ _.
            Returns-bind _ _
              (Returns-or_unique identity_in_use _ (
                identity-IsClosed user.id out.identity_id user.id provider identity.subject
                  (some identity.email)))
              (λ _. issue-From s libs backend out _ out.family_id)))))

  -- No identity where the test of the count does not hold.
  none_linked : (n : ℕ) → ltb 0 n ≡ false → n ≡ 0
  none_linked n e = ground (arith, e)

  count-Returns :
      (user : ℕ) (start : Db Raw)
      → Returns
          (λ db. db ≡ start)
          (count_user_identities backend user)
          (λ n db. n ≡ length (select (λ i. i.user_id == user) start.identities))
  unfolding count_user_identities
  count-Returns user start =
      Returns-exec backend _ _
        (λ db h. ap (λ d. length (select (λ i. i.user_id == user) d.identities)) h)

  claim_found-IsClaimed :
      (provider : String) (identity : FederatedIdentity) (start : Db Raw) (user : User)
      → user_by_email backend identity.email start ≡ some user
      → Returns
          (λ db. db ≡ start)
          (claim_found s libs oidc backend out provider identity user)
          (IsClaimed identity.email start)
  unfolding claim_found
  claim_found-IsClaimed provider identity start user found =
      Returns-if (is_some user.email_verified_at) _ _ (λ _. Returns-raise _)
        (λ unverified. Returns-bind _ _ (count-Returns user.id start) (λ n.
          Returns-if (ltb 0 n) _ _ (λ _. Returns-raise _)
            (λ unlinked. record {
              at = λ c h.
                  (Returns-weaken {Q' = IsClaimed identity.email start} (λ db u. u)
                      (λ session db r. record {
                        user = user;
                        found = found;
                        unverified = is_some-none user.email_verified_at unverified;
                        unlinked = sym h ∙ none_linked n unlinked;
                        before = r.0;
                        closed = r.1;
                        issued = r.2;
                      })
                      (claim_user-Returns {P = λ db. Unit {0}} provider identity user)).at
                    c tt;
            })))

  -- Where claimUnverifiedAccount returns a session, the account of the identity's email was not
  -- verified and had no identity. When the session's refresh token is stored, the account has no
  -- password, every earlier refresh token of it is revoked, and every earlier one-time token of
  -- either kind is used; the session is that account's, with a verified email.
  pub claim_unverified_account-IsClaimed :
      (provider : String) (identity : FederatedIdentity) (c : Conn Raw) (session : AuthSession)
      → (claim_unverified_account s libs oidc backend out provider identity c).0 ≡ ok session
      → IsClaimed identity.email c.db session
          (claim_unverified_account s libs oidc backend out provider identity c).1.db
  unfolding claim_unverified_account claim_body get_user_by_email_for_update
  claim_unverified_account-IsClaimed provider identity c session =
      Returns-of _ c session
        (Returns-transaction backend _ (
          Returns-bind _ _
            (Returns-optional_look
              {Q = λ o db. (user_by_email backend identity.email c.db ≡ o) × (db ≡ c.db)} backend _
              _ (λ db h. (ap (user_by_email backend identity.email) (sym h), h)))
            (λ o.
              Returns-bind _ _
                (Returns-or_raise
                  {Q = λ user db.
                    (user_by_email backend identity.email c.db ≡ some user) × (db ≡ c.db)}
                  _ o (λ user db e h. (h.0 ∙ e, h.1)))
                (λ user. Returns-assume (claim_found-IsClaimed provider identity c.db user)))))
        refl
