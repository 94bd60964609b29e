-- ===== src/Accounts/Refresh/Safety.antt =====
-- Which refresh tokens open a session.
use cubesync.Prelude.{
  ℕ, ◌<◌, ◌≡◌, refl, sym, ap, ◌∙◌, String, Bool, true, false, not, ◌&&◌, ◌||◌, Option, none, some,
  List, [], ◌∷◌, ◌++◌, ◌⊎◌, inl, inr, if◌then◌else◌, find, update_where, is_some, ltb, ltb→lt,
  arith, some_inj, is_some-none,
}
use cubesync.Store.{Db, User, RefreshToken, ok, Conn, Backend}
use cubesync.Store.Users.{get_user_by_id}
use cubesync.Store.Tokens.{
  has_hash, is_fresh, used_refresh, get_refresh_token_for_update, mark_refresh_token_used,
  revoke_refresh_family,
}
use cubesync.Store.Returns.{
  Returns, Returns-of, Returns-pure, Returns-raise, Returns-if, Returns-exec, Returns-transaction,
  Returns-look, Returns-optional_look, Returns-bind, Returns-given, Returns-weaken,
}
use cubesync.Accounts.Types.{AuthSession, AuthService, Libraries, Outside, user_from_db}
use cubesync.Accounts.Issued.{Returns-or_raise, Issued, issue-Returns, issued_token, user_of-id}
use cubesync.Accounts.Refresh.{used_within, in_grace, reissue, rotate, refresh_body, refresh}

grace_facts :
    (now : ℕ) (t : RefreshToken)
    → in_grace now t ≡ true
    → (t.revoked_at ≡ none)
      × (now < t.expires_at)
      × ((t.used_at ≡ none) ⊎ (used_within now t.used_at ≡ true))
grace_facts now t e =
    let (live, used, current) =
      and_facts (is_some t.revoked_at) (used_within now t.used_at) (ltb now t.expires_at) e in
    (is_some-none t.revoked_at live, ltb→lt now t.expires_at current, inr used)
  where
    and_facts : (r u l : Bool) → (not r && (u && l)) ≡ true → (r ≡ false) × (u ≡ true) × (l ≡ true)
    and_facts r u l e = ground (arith, e)

fresh_facts :
    (now : ℕ) (t : RefreshToken)
    → (is_some t.used_at || is_some t.revoked_at) ≡ false
    → not (ltb now t.expires_at) ≡ false
    → (t.revoked_at ≡ none)
      × (now < t.expires_at)
      × ((t.used_at ≡ none) ⊎ (used_within now t.used_at ≡ true))
fresh_facts now t e current =
    let (unused, live) = or_facts (is_some t.used_at) (is_some t.revoked_at) e in
    (is_some-none t.revoked_at live, ground arith, inl (is_some-none t.used_at unused))
  where
    or_facts : (u r : Bool) → (u || r) ≡ false → (u ≡ false) × (r ≡ false)
    or_facts u r e = ground (arith, e)

module _ {Raw : Type 0} (s : AuthService) (libs : Libraries) (backend : Backend Raw)
    (out : Outside) where
  -- The rows once the token is used.
  abbrev pub marked : RefreshToken → List RefreshToken → List RefreshToken
  marked t xs =
      if in_grace s.now t then xs else update_where (is_fresh t.id) (used_refresh backend) xs

  -- The stored token of the presented one, and what its use leaves in the table.
  pub record IsAuthorised (hash : ℕ) (before : List RefreshToken) (t : RefreshToken)
      (session : AuthSession) (after : List RefreshToken) : Type 0 where
    pub found : find (has_hash hash) before ≡ some t
    pub live : t.revoked_at ≡ none
    pub unexpired : s.now < t.expires_at
    pub unused : (t.used_at ≡ none) ⊎ (used_within s.now t.used_at ≡ true)
    pub same_user : session.user.id ≡ t.user_id
    pub stored :
        after
        ≡ marked t before ++ issued_token s libs backend out t.family_id t.user_id session ∷ []

  -- The same of the tables, for the session if there is one.
  abbrev Reissued : RefreshToken → List RefreshToken → Option AuthSession → Db Raw → Type 0
  Reissued t xs o db =
      (session : AuthSession)
      → o ≡ some session
      → (session.user.id ≡ t.user_id)
        × (db.refresh_tokens
            ≡ xs ++ issued_token s libs backend out t.family_id t.user_id session ∷ [])

  reissued :
      (t : RefreshToken) (xs : List RefreshToken) (row : User) (session : AuthSession) (db : Db Raw)
      → row.id ≡ t.user_id
      → Issued s libs backend out xs (user_from_db row) t.family_id session db
      → Reissued t xs (some session) db
  unfolding user_from_db
  reissued t xs row session db owner i session' e = rw (some_inj (sym e)) (
    ap (λ u. u.id) i.same_user ∙ owner,
    i.stored ∙ ap (λ u. xs ++ issued_token s libs backend out t.family_id u session ∷ []) owner,
  )

  reissue-Returns :
      (t : RefreshToken) (xs : List RefreshToken)
      → Returns (λ db. db.refresh_tokens ≡ xs) (reissue s libs backend out t) (Reissued t xs)
  unfolding reissue get_user_by_id
  reissue-Returns t xs =
      Returns-bind _ _
        (Returns-look {Q = λ row db. (row.id ≡ t.user_id) × (db.refresh_tokens ≡ xs)} backend _ _
          (λ db row h e. (user_of-id t.user_id db row e, h)))
        (λ row.
          Returns-bind _ _
            (Returns-given (issue-Returns s libs backend out xs (user_from_db row) t.family_id))
            (λ session. Returns-pure _ (λ db h. reissued t xs row session db h.0 h.1)))

  -- What `rotate` returns of a token found under a hash.
  abbrev Rotated : ℕ → List RefreshToken → RefreshToken → Option AuthSession → Db Raw → Type 0
  Rotated hash before t o db =
      (session : AuthSession)
      → o ≡ some session
      → IsAuthorised hash before t session db.refresh_tokens

  authorised :
      (hash : ℕ) (before : List RefreshToken) (t : RefreshToken)
      → find (has_hash hash) before ≡ some t
      → (t.revoked_at ≡ none)
        × (s.now < t.expires_at)
        × ((t.used_at ≡ none) ⊎ (used_within s.now t.used_at ≡ true))
      → (xs : List RefreshToken) → marked t before ≡ xs
      → (o : Option AuthSession) (db : Db Raw) → Reissued t xs o db
      → Rotated hash before t o db
  authorised hash before t found (live, unexpired, unused) xs same o db r session e = record {
    found = found;
    live = live;
    unexpired = unexpired;
    unused = unused;
    same_user = (r session e).0;
    stored = rw same (r session e).1;
  }

  mark-Returns :
      (t : RefreshToken) (xs : List RefreshToken)
      → Returns
          (λ db. db.refresh_tokens ≡ xs)
          (mark_refresh_token_used backend t.id)
          (λ _ db. db.refresh_tokens ≡ update_where (is_fresh t.id) (used_refresh backend) xs)
  unfolding mark_refresh_token_used
  mark-Returns t xs =
      Returns-exec backend _ _ (λ db h. ap (update_where (is_fresh t.id) (used_refresh backend)) h)

  rotate-Returns :
      (hash : ℕ) (before : List RefreshToken) (t : RefreshToken)
      → find (has_hash hash) before ≡ some t
      → Returns
          (λ db. db.refresh_tokens ≡ before)
          (rotate s libs backend out t)
          (Rotated hash before t)
  unfolding rotate revoke_refresh_family
  rotate-Returns hash before t found =
      Returns-if (in_grace s.now t) _ _
        (λ grace.
          Returns-weaken (λ db h. h)
            (λ o db.
              authorised hash before t found (grace_facts s.now t grace) before
                (marked_in_grace grace) o db)
            (reissue-Returns t before))
        (λ late.
          Returns-if _ _ _
            (λ reused.
              Returns-bind {Q = λ _ _. Unit} _ _ (Returns-exec backend _ _ (λ db h. tt))
                (λ _. Returns-pure none (λ db h session e. absurd (cc e))))
            (λ fresh.
              Returns-if _ _ _ (λ expired. Returns-raise _)
                (λ current. Returns-bind _ _ (mark-Returns t before) (λ _.
                  Returns-weaken (λ db h. h)
                    (λ o db.
                      authorised hash before t found (fresh_facts s.now t fresh current) _
                        (marked_late late) o db)
                    (reissue-Returns t _)))))
    where
      marked_in_grace : in_grace s.now t ≡ true → marked t before ≡ before
      marked_in_grace e = rw e refl

      marked_late :
          in_grace s.now t ≡ false
          → marked t before ≡ update_where (is_fresh t.id) (used_refresh backend) before
      marked_late e = rw e refl

  refresh_body-Returns :
      (raw : String) (before : List RefreshToken)
      → Returns
          (λ db. db.refresh_tokens ≡ before)
          (refresh_body s libs backend out raw)
          (λ o db.
            (session : AuthSession)
            → o ≡ some session
            → (t : RefreshToken) × IsAuthorised
                (libs.token_hash raw)
                before
                t
                session
                db.refresh_tokens)
  unfolding refresh_body get_refresh_token_for_update
  refresh_body-Returns raw before =
      Returns-bind _ _
        (Returns-optional_look
          {Q = λ o db.
            (db.refresh_tokens ≡ before) × (find (has_hash (libs.token_hash raw)) before ≡ o)}
          backend _ _ (λ db h. (h, ap (find (has_hash (libs.token_hash raw))) (sym h))))
        (λ o.
          Returns-bind _ _
            (Returns-or_raise
              {Q = λ t db.
                (find (has_hash (libs.token_hash raw)) before ≡ some t)
                × (db.refresh_tokens ≡ before)}
              _ o (λ t db e h. (h.1 ∙ e, h.0)))
            (λ t. record {
              at = λ c h.
                  (Returns-weaken (λ db h. h) (λ o db r session e. (t, r session e))
                      (rotate-Returns (libs.token_hash raw) before t h.0)).at
                    c h.1;
            }))

  -- Where Refresh returns a session, the presented token is stored, is not revoked, has not
  -- expired, and is unused or was used at most 30 seconds ago. The session is of the token's user,
  -- and afterwards the table has the earlier rows, the presented one marked as used if it was not,
  -- and one new row: the session's refresh token, in the family of the presented one.
  pub refresh-IsAuthorised :
      (raw : String) (c : Conn Raw) (session : AuthSession)
      → (refresh s libs backend out raw c).0 ≡ ok session
      → (t : RefreshToken) × IsAuthorised
          (libs.token_hash raw)
          c.db.refresh_tokens
          t
          session
          (refresh s libs backend out raw c).1.db.refresh_tokens
  unfolding refresh
  refresh-IsAuthorised raw c session =
      Returns-of (refresh s libs backend out raw) c session
        (Returns-bind _ _
          (Returns-transaction backend _ (refresh_body-Returns raw c.db.refresh_tokens))
          (λ o. Returns-or_raise _ o (λ session' db e h. h session' e)))
        refl
