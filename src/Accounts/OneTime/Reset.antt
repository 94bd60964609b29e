-- ===== src/Accounts/OneTime/Reset.antt =====
-- What a password reset leaves of the account's earlier access.
use cubesync.Prelude.{
  ℕ, ◌≡◌, ◌≢◌, refl, ap, String, Bool, true, false, not, ◌||◌, Option, none, some, [], ◌∷◌, ◌++◌,
  if◌then◌else◌, update_where, any, any-find, find-append_miss, find-update_where, find-holds,
  is_some, All, All-update_each, str_eq, ltb, ==_iff, arith,
}
use cubesync.Store.{
  Db, User, RefreshToken, PasswordCredential, OneTimeToken, ok, err, unique_violation,
  foreign_key_violation, Conn, Backend,
}
use cubesync.Store.Queries.{has_user}
use cubesync.Store.Users.{
  get_user_by_id, upsert_password_credential, upsert_password_credential_statement,
  create_password_credential_statement, credential_of, is_credential, changed_credential,
  new_credential,
}
use cubesync.Store.Tokens.{
  is_live_of, revoked, mark_one_time_token_used, revoke_all_user_refresh_tokens,
}
use cubesync.Store.Returns.{
  OnRow, Returns, Returns-of, Returns-pure, Returns-raise, Returns-if, Returns-exec,
  Returns-transaction, Returns-look, Returns-bind, Returns-weaken, Returns-any, Returns-assume,
}
use cubesync.Accounts.Types.{Profile, AuthSession, AuthService, Libraries, Outside, user_from_db}
use cubesync.Accounts.Password.{validate_password, hash_password}
use cubesync.Accounts.Issued.{Returns-or_fail, IssuedFrom, issue-From, user_of-id}
use cubesync.Accounts.OneTime.{
  consumed_user, consume_record, consume_body, consume_one_time_token, set_password_of,
  reset_password, raise_password,
}

-- Revoked, if the user's.
abbrev pub ClosedFor : ℕ → RefreshToken → Type 0
ClosedFor user r = r.user_id ≡ user → r.revoked_at ≢ none

-- The user has this password and no live refresh token.
pub record IsReset {Raw : Type 0} (user : ℕ) (hash : String) (db : Db Raw) : Type 0 where
  pub has_password :
      (p : PasswordCredential) × (credential_of user db ≡ some p) × (p.password_hash ≡ hash)
  pub closed : All (ClosedFor user) db.refresh_tokens

module _ {Raw : Type 0} (s : AuthService) (libs : Libraries) (backend : Backend Raw)
    (out : Outside) where
  abbrev HasPassword : ℕ → String → Db Raw → Type 0
  HasPassword user hash db =
      (p : PasswordCredential) × (credential_of user db ≡ some p) × (p.password_hash ≡ hash)

  upsert-HasPassword :
      (user : ℕ) (hash : String) {P : Db Raw → Type 0}
      → Returns P (upsert_password_credential backend user hash) (λ _. HasPassword user hash)
  unfolding upsert_password_credential upsert_password_credential_statement
      create_password_credential_statement
  upsert-HasPassword user hash = Returns-exec backend _ _ (λ db h.
      written db (any (is_credential user) db.password_credentials) refl (has_user user db.users))
    where
      written :
          (db : Db Raw) (b : Bool)
          → any (is_credential user) db.password_credentials ≡ b
          → (known : Bool)
          → OnRow
              (λ _. HasPassword user hash)
              (if b
                then (
                  ok tt,
                  record db {
                    password_credentials =
                        update_where
                          (is_credential user)
                          (changed_credential backend hash)
                          db.password_credentials;
                  },
                )
                else if b
                then (err unique_violation, db)
                else if known
                then (
                  ok tt,
                  record db {
                    password_credentials =
                        db.password_credentials ++ new_credential backend user hash ∷ [];
                  },
                )
                else (err foreign_key_violation, db))
      written db true e known =
          let (p, found) = any-find (is_credential user) db.password_credentials e in
          (
            _,
            find-update_where (is_credential user) (is_credential user)
                (changed_credential backend hash) db.password_credentials p (λ x. refl) found,
            ap (λ b. (if b then changed_credential backend hash p else p).password_hash)
                (find-holds (is_credential user) db.password_credentials p found),
          )
      written db false e false = tt
      written db false e true = (
        _,
        find-append_miss (is_credential user) db.password_credentials _ e
            ((==_iff user user).1 refl),
        refl,
      )

  revoked_row :
      (user : ℕ) (r : RefreshToken)
      → ClosedFor user (if is_live_of user r then revoked backend r else r)
  revoked_row user r same e = ground arith

  set_password-IsReset :
      {P : Db Raw → Type 0} (hash : String) (t : OneTimeToken)
      → Returns P (set_password_of s libs backend out hash t) (λ _. IsReset t.user_id hash)
  unfolding set_password_of revoke_all_user_refresh_tokens
  set_password-IsReset hash t =
      Returns-bind _ _
        (Returns-bind {Q = λ _ _. Unit} _ _ (Returns-any _)
          (λ _. upsert-HasPassword t.user_id hash))
        (λ _. Returns-exec backend _ _ (λ db h. record {
          has_password = h;
          closed =
              All-update_each (ClosedFor t.user_id) (is_live_of t.user_id) (revoked backend)
                db.refresh_tokens (revoked_row t.user_id);
        }))

  -- The session of a reset, and the tables before its refresh token was stored.
  pub record IsResetBy (hash : String) (session : AuthSession) (db : Db Raw) : Type 0 where
    pub before : Db Raw
    pub user : Profile
    pub verified : user.email_verified ≡ true
    pub reset : IsReset user.id hash before
    pub issued : IssuedFrom s libs backend out before user out.family_id session db

  mark-IsReset :
      (user : ℕ) (hash : String) (id : ℕ)
      → Returns (IsReset user hash) (mark_one_time_token_used backend id) (λ _. IsReset user hash)
  unfolding mark_one_time_token_used
  mark-IsReset user hash id =
      Returns-exec backend _ _ (λ db h. record { has_password = h.has_password; closed = h.closed })

  IsReset-owner :
      (hash : String) (t : OneTimeToken) (row : User) (db : Db Raw)
      → row.id ≡ t.user_id
      → IsReset t.user_id hash db
      → IsReset row.id hash db
  IsReset-owner hash t row db e h = rw e h

  consume_record-IsResetBy :
      {P : Db Raw → Type 0} (hash : String) (t : OneTimeToken)
      → Returns P
          (consume_record s libs backend out "reset_password"
            (set_password_of s libs backend out hash)
            t)
          (IsResetBy hash)
  unfolding consume_record mark_one_time_token_used get_user_by_id user_from_db
  consume_record-IsResetBy hash t =
      Returns-if (is_some t.used_at || not (ltb s.now t.expires_at)) _ _ (λ stale. Returns-raise _)
        (λ fresh. Returns-bind _ _ (set_password-IsReset hash t) (λ _.
          Returns-bind {Q = λ _. IsReset t.user_id hash} _ _ (mark-IsReset t.user_id hash t.id)
            (λ _.
              Returns-bind {Q = λ (row : User) db. IsReset row.id hash db} _ _
                (Returns-look backend _ _
                  (λ db row h e. IsReset-owner hash t row db (user_of-id t.user_id db row e) h))
                (λ row.
                  Returns-weaken (λ db h. h)
                    (λ session db i. record {
                      before = i.0;
                      user = consumed_user "reset_password" row;
                      verified = refl;
                      reset = i.1;
                      issued = i.2;
                    })
                    (issue-From s libs backend out (consumed_user "reset_password" row)
                      out.family_id)))))

  consume-IsResetBy :
      {P : Db Raw → Type 0} (hash raw : String)
      → Returns P
          (consume_one_time_token s libs backend out raw "reset_password"
            (set_password_of s libs backend out hash))
          (IsResetBy hash)
  unfolding consume_one_time_token consume_body
  consume-IsResetBy hash raw =
      Returns-if (str_eq raw "") _ _ (λ empty. Returns-raise _)
        (λ given. Returns-transaction backend _ (
          Returns-bind {Q = λ _ _. Unit} _ _ (Returns-any _) (λ o.
            Returns-bind {Q = λ _ _. Unit} _ _ (Returns-any _)
              (λ t. consume_record-IsResetBy hash t))))

  abbrev pub WithPassword : String → AuthSession → Db Raw → Type 0
  WithPassword password session db =
      (validate_password password ≡ none)
      × (hash : String) × (hash_password libs out.salt password ≡ some hash)
      × IsResetBy hash session db

  -- Where ResetPassword returns a session, the new password is accepted by the rules and has been
  -- hashed; the session's user has exactly that hash as its password, and of its refresh tokens
  -- every one is revoked but the session's own, which is the newest row of the table.
  pub reset_password-IsResetBy :
      (raw password : String) (c : Conn Raw) (session : AuthSession)
      → (reset_password s libs backend out raw password c).0 ≡ ok session
      → WithPassword password session (reset_password s libs backend out raw password c).1.db
  unfolding reset_password
  reset_password-IsResetBy raw password c session =
      Returns-of {Q = WithPassword password} _ c session
        (Returns-bind {Q = λ _ _. validate_password password ≡ none} _ _
          (valid (validate_password password))
          (λ _.
            Returns-bind
              {Q = λ hash _.
                ((validate_password password ≡ none)
                  × (hash_password libs out.salt password ≡ some hash))
                × Unit {0}}
              _ _ (Returns-or_fail _ (λ hash db e h. ((h, e), tt)))
              (λ hash. Returns-assume (λ facts.
                Returns-weaken {Q' = WithPassword password} (λ db u. u)
                  (λ session db r. (facts.0, hash, facts.1, r)) (consume-IsResetBy hash raw)))))
        tt
    where
      valid :
          (o : Option String) → Returns {Raw = Raw} (λ _. Unit) (raise_password o) (λ _ _. o ≡ none)
      valid none = Returns-pure tt (λ db h. refl)
      valid (some m) = Returns-raise _
