-- ===== src/Accounts/Issued.antt =====
-- What issueSessionWithQueries leaves in the tables, and the rules for the errors of the accounts.
use cubesync.Prelude.{
  ℕ, ◌+◌, ◌≡◌, refl, sym, ap, ◌∙◌, Bool, true, false, Option, none, some, List, [], ◌∷◌, ◌++◌,
  if◌then◌else◌, find-holds, any, arith, ==_iff, ◌==◌, ◌||◌,
}
use cubesync.Store.{
  Db, User, RefreshToken, Error, client_error, auth_error, no_rows, foreign_key_violation,
  unique_violation, failed, Result, ok, err, Conn, Backend, M,
}
use cubesync.Store.Queries.{has_user, is_user}
use cubesync.Store.Users.{user_of}
use cubesync.Store.Tokens.{new_refresh_token, insert_refresh_token, create_refresh_token}
use cubesync.Store.Returns.{
  OnOk, OnRow, Returns, Returns-pure, Returns-raise, Returns-exec, Returns-bind, Returns-given,
}
use cubesync.Sync.Convert.{or_fail}
use cubesync.Accounts.Types.{Profile, AuthSession, AuthService, Libraries, Outside}
use cubesync.Accounts.AccessTokens.{issue_access_token}
use cubesync.Accounts.Sessions.{unique_result, or_unique, or_raise, issue_session_with_queries}

module _ {Raw A : Type 0} {P : Db Raw → Type 0} where
  pub Returns-or_raise :
      {Q : A → Db Raw → Type 0} (e : Error) (o : Option A)
      → ((a : A) (db : Db Raw) → o ≡ some a → P db → Q a db)
      → Returns P (or_raise e o) Q
  unfolding or_raise
  Returns-or_raise e none k = Returns-raise e
  Returns-or_raise e (some a) k = Returns-pure a (λ db h. k a db refl h)

  pub Returns-or_fail :
      {Q : A → Db Raw → Type 0} (o : Option A)
      → ((a : A) (db : Db Raw) → o ≡ some a → P db → Q a db)
      → Returns P (or_fail o) Q
  unfolding or_fail
  Returns-or_fail none k = Returns-raise failed
  Returns-or_fail (some a) k = Returns-pure a (λ db h. k a db refl h)

module _ {Raw A : Type 0} where
  unique_result-OnOk :
      (Q : A → Db Raw → Type 0) (e : Error) (r : Result A × Conn Raw)
      → OnOk Q r
      → OnOk Q (unique_result e r)
  unfolding unique_result
  unique_result-OnOk Q e (ok a, c) h = h
  unique_result-OnOk Q e (err unique_violation, c) h = tt
  unique_result-OnOk Q e (err no_rows, c) h = tt
  unique_result-OnOk Q e (err foreign_key_violation, c) h = tt
  unique_result-OnOk Q e (err failed, c) h = tt
  unique_result-OnOk Q e (err (client_error k m), c) h = tt
  unique_result-OnOk Q e (err (auth_error k m), c) h = tt

  pub Returns-or_unique :
      {P : Db Raw → Type 0} {Q : A → Db Raw → Type 0} (e : Error) (m : M Raw A)
      → Returns P m Q
      → Returns P (or_unique e m) Q
  unfolding or_unique
  Returns-or_unique {Q} e m r = record { at = λ c h. unique_result-OnOk Q e (m c) (r.at c h) }

pub user_of-id :
    {Raw : Type 0} (id : ℕ) (db : Db Raw) (u : User) → user_of id db ≡ some u → u.id ≡ id
user_of-id id db u e = (==_iff u.id id).0 (find-holds (is_user id) db.users u e)

module _ {Raw : Type 0} (s : AuthService) (libs : Libraries) (backend : Backend Raw)
    (out : Outside) where
  abbrev pub issued_token : ℕ → ℕ → AuthSession → RefreshToken
  issued_token family user session =
      new_refresh_token backend out.refresh_id family user (libs.token_hash session.refresh_token)
        (s.now + s.refresh_token_ttl)

  -- The session is the user's, and its refresh token is the newest row of the table.
  pub record Issued (xs : List RefreshToken) (user : Profile) (family : ℕ) (session : AuthSession)
      (db : Db Raw) : Type 0 where
    pub same_user : session.user ≡ user
    pub signed :
        issue_access_token s libs out.claims_id user.id user.email_verified user.user_role
        ≡ some session.access_token
    pub stored : db.refresh_tokens ≡ xs ++ issued_token family user.id session ∷ []

  create_refresh_token-Returns :
      (xs : List RefreshToken) (id family user hash expires : ℕ)
      → Returns
          (λ db. db.refresh_tokens ≡ xs)
          (create_refresh_token backend id family user hash expires)
          (λ _ db.
            db.refresh_tokens ≡ xs ++ new_refresh_token backend id family user hash expires ∷ [])
  unfolding create_refresh_token insert_refresh_token
  create_refresh_token-Returns xs id family user hash expires =
      Returns-exec backend _ _ (λ db h. ground (arith, h))

  pub issue-Returns :
      (xs : List RefreshToken) (user : Profile) (family : ℕ)
      → Returns
          (λ db. db.refresh_tokens ≡ xs)
          (issue_session_with_queries s libs backend out user family)
          (Issued xs user family)
  unfolding issue_session_with_queries
  issue-Returns xs user family =
      Returns-bind _ _
        (Returns-or_fail
          {Q = λ access db.
            (issue_access_token s libs out.claims_id user.id user.email_verified user.user_role
              ≡ some access)
            × (db.refresh_tokens ≡ xs)}
          _ (λ access db e h. (e, h)))
        (λ access. Returns-bind _ _ (Returns-or_fail _ (λ refresh db e h. h)) (λ refresh.
          Returns-bind _ _
            (Returns-given (
              create_refresh_token-Returns xs out.refresh_id family user.id
                (libs.token_hash refresh) (s.now + s.refresh_token_ttl)))
            (λ _.
              Returns-pure _ (λ db h. record { same_user = refl; signed = h.0; stored = h.1 }))))

  -- The tables afterwards are those before, with the session's refresh token as the newest row.
  pub record IssuedFrom (before : Db Raw) (user : Profile) (family : ℕ) (session : AuthSession)
      (db : Db Raw) : Type 0 where
    pub same_user : session.user ≡ user
    pub stored : db ≡ record before {
      refresh_tokens = before.refresh_tokens ++ issued_token family user.id session ∷ [];
    }

  create_refresh_token-From :
      {P : Db Raw → Type 0} (id family user hash expires : ℕ)
      → Returns P (create_refresh_token backend id family user hash expires) (λ _ db.
        (before : Db Raw) × P before
        × (db ≡ record before {
          refresh_tokens =
              before.refresh_tokens ++ new_refresh_token backend id family user hash expires ∷ [];
        }))
  unfolding create_refresh_token insert_refresh_token
  create_refresh_token-From {P} id family user hash expires = Returns-exec backend _ _ (λ db h.
      inserted db (any (λ x. x.id == id || x.token_hash == hash) db.refresh_tokens)
        (has_user user db.users) h)
    where
      inserted :
          (db : Db Raw) (taken known : Bool)
          → P db
          → OnRow
              (λ _ after.
                (before : Db Raw) × P before
                × (after ≡ record before {
                  refresh_tokens =
                      before.refresh_tokens
                      ++ new_refresh_token backend id family user hash expires ∷ [];
                }))
              (if taken
                then (err unique_violation, db)
                else if known
                then (
                  ok tt,
                  record db {
                    refresh_tokens =
                        db.refresh_tokens
                        ++ new_refresh_token backend id family user hash expires ∷ [];
                  },
                )
                else (err foreign_key_violation, db))
      inserted db true known h = tt
      inserted db false false h = tt
      inserted db false true h = (db, h, refl)

  pub issue-From :
      {P : Db Raw → Type 0} (user : Profile) (family : ℕ)
      → Returns P
          (issue_session_with_queries s libs backend out user family)
          (λ session db. (before : Db Raw) × P before × IssuedFrom before user family session db)
  unfolding issue_session_with_queries
  issue-From user family = Returns-bind _ _ (Returns-or_fail _ (λ access db e h. h)) (λ access.
      Returns-bind _ _ (Returns-or_fail _ (λ refresh db e h. h)) (λ refresh.
        Returns-bind _ _
          (create_refresh_token-From out.refresh_id family user.id (libs.token_hash refresh)
            (s.now + s.refresh_token_ttl))
          (λ _. Returns-pure _ (λ db h. (h.0, h.1, record { same_user = refl; stored = h.2 })))))

  -- The user is that of the session.
  pub of_its_user :
      (before after : Db Raw) (user : Profile) (family : ℕ) (session : AuthSession)
      → IssuedFrom before user family session after
      → IssuedFrom before session.user family session after
  of_its_user before after user family session i = record {
    same_user = refl;
    stored =
        i.stored
        ∙ ap
            (λ (u : Profile). record before {
              refresh_tokens = before.refresh_tokens ++ issued_token family u.id session ∷ [];
            })
            (sym i.same_user);
  }
