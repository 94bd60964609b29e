-- ===== src/Accounts/Credentials/SignIn.antt =====
-- Who may sign in with a password.
use cubesync.Prelude.{
  ◌≡◌, refl, sym, ap, ◌∙◌, String, Bool, true, Option, none, some, is_some, some_inj,
}
use cubesync.Store.{Db, User, PasswordCredential, ok, Conn, Backend}
use cubesync.Store.Users.{
  CredentialRow, with_credential, joined_credential, user_by_email, credential_of,
  get_password_credential_by_email,
}
use cubesync.Store.Returns.{
  Returns, Returns-of, Returns-raise, Returns-if, Returns-transaction, Returns-optional_look,
  Returns-bind, Returns-weaken, Returns-assume,
}
use cubesync.Accounts.Types.{AuthSession, AuthService, Libraries, Outside}
use cubesync.Accounts.Password.{verify_password}
use cubesync.Accounts.Sessions.{issue_session}
use cubesync.Accounts.Issued.{Returns-or_raise, IssuedFrom, issue-From, of_its_user}
use cubesync.Accounts.OneTime.{normalize_email}
use cubesync.Accounts.Credentials.{is_valid, credential_user, login_with, login}

-- The parts of a row of the join.
record Joined {Raw : Type 0} (o : Option User) (db : Db Raw) (row : CredentialRow) : Type 0 where
  user : User
  credential : PasswordCredential
  found : o ≡ some user
  found_credential : credential_of user.id db ≡ some credential
  same : with_credential user (some credential) ≡ some row

joined :
    {Raw : Type 0} (db : Db Raw) (o : Option User) (row : CredentialRow)
    → joined_credential db o ≡ some row
    → Joined o db row
joined db none row e = absurd (cc e)
joined db (some u) row e = with_row (credential_of u.id db) refl e
  where
    with_row :
        (p : Option PasswordCredential)
        → credential_of u.id db ≡ p
        → with_credential u p ≡ some row
        → Joined (some u) db row
    with_row none found e' = absurd (cc e')
    with_row (some p) found e' = record {
      user = u;
      credential = p;
      found = refl;
      found_credential = found;
      same = e';
    }

valid-some : (o : Option Bool) → is_valid o ≡ true → o ≡ some true
valid-some none e = absurd (cc e)
valid-some (some b) e = ap some e

module _ {Raw : Type 0} (s : AuthService) (libs : Libraries) (backend : Backend Raw)
    (out : Outside) where
  -- The account of an email, whose password is the given one, and what signing in leaves.
  pub record IsSignedIn (email password : String) (before : Db Raw) (session : AuthSession)
      (after : Db Raw) : Type 0 where
    pub user : User
    pub credential : PasswordCredential
    pub found : user_by_email backend (normalize_email libs email) before ≡ some user
    pub verified : is_some user.email_verified_at ≡ true
    pub found_credential : credential_of user.id before ≡ some credential
    pub accepted : verify_password libs password credential.password_hash ≡ some true
    pub same_user : session.user.id ≡ user.id
    pub issued : IssuedFrom s libs backend out before session.user out.family_id session after

  signed_in :
      (email password : String) (before : Db Raw) (row : CredentialRow)
      → joined_credential before (user_by_email backend (normalize_email libs email) before)
        ≡ some row
      → is_valid (verify_password libs password row.password_hash) ≡ true
      → is_some row.email_verified_at ≡ true
      → (session : AuthSession) (after : Db Raw)
      → IssuedFrom s libs backend out before
          (credential_user s libs backend out row)
          out.family_id
          session
          after
      → IsSignedIn email password before session after
  signed_in email password before row e valid verified session after i =
      let j = joined before _ row e in
      record {
        user = j.user;
        credential = j.credential;
        found = j.found;
        verified = ap (λ r. is_some r.email_verified_at) (some_inj j.same) ∙ verified;
        found_credential = j.found_credential;
        accepted =
            ap (λ r. verify_password libs password r.password_hash) (some_inj j.same)
            ∙ valid-some (verify_password libs password row.password_hash) valid;
        same_user = ap (λ u. u.id) i.same_user ∙ ap (λ r. r.id) (some_inj (sym j.same));
        issued = of_its_user s libs backend out before after _ out.family_id session i;
      }

  login_with-IsSignedIn :
      (email password : String) (before : Db Raw) (row : CredentialRow)
      → joined_credential before (user_by_email backend (normalize_email libs email) before)
        ≡ some row
      → Returns
          (λ db. db ≡ before)
          (login_with s libs backend out password row)
          (IsSignedIn email password before)
  unfolding login_with issue_session
  login_with-IsSignedIn email password before row found =
      Returns-if _ _ _
        (λ valid.
          Returns-if (is_some row.email_verified_at) _ _
            (λ verified. Returns-transaction backend _ (
              Returns-weaken (λ db h. h)
                (λ session after i.
                  signed_in email password before row found valid verified session after
                    (issued_from session after i.0 i.1 i.2))
                (issue-From s libs backend out (credential_user s libs backend out row)
                  out.family_id)))
            (λ _. Returns-raise _))
        (λ _. Returns-raise _)
    where
      issued_from :
          (session : AuthSession) (after start : Db Raw)
          → start ≡ before
          → IssuedFrom s libs backend out start
              (credential_user s libs backend out row)
              out.family_id
              session
              after
          → IssuedFrom s libs backend out before
              (credential_user s libs backend out row)
              out.family_id
              session
              after
      issued_from session after start e i = rw (sym e) i

  -- Where Login returns a session, the normalized email is that of an account whose email is
  -- verified and whose stored hash accepts the password. The session is that account's, and the
  -- tables have changed by one row, the session's refresh token in a new family.
  pub login-IsSignedIn :
      (email password : String) (c : Conn Raw) (session : AuthSession)
      → (login s libs backend out email password c).0 ≡ ok session
      → IsSignedIn email password c.db session (login s libs backend out email password c).1.db
  unfolding login get_password_credential_by_email
  login-IsSignedIn email password c session =
      Returns-of _ c session
        (Returns-bind _ _
          (Returns-optional_look
            {Q = λ o db.
              (joined_credential c.db (user_by_email backend (normalize_email libs email) c.db) ≡ o)
              × (db ≡ c.db)}
            backend _ _
            (λ db h. (
              ap (λ d. joined_credential d (user_by_email backend (normalize_email libs email) d))
                  (sym h),
              h,
            )))
          (λ o.
            Returns-bind _ _
              (Returns-or_raise
                {Q = λ row db.
                  (joined_credential c.db (user_by_email backend (normalize_email libs email) c.db)
                    ≡ some row)
                  × (db ≡ c.db)}
                _ o (λ row db e h. (h.0 ∙ e, h.1)))
              (λ row. Returns-assume (login_with-IsSignedIn email password c.db row))))
        refl
