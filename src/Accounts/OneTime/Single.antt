-- ===== src/Accounts/OneTime/Single.antt =====
-- A one-time token is redeemed once.
use cubesync.Prelude.{
  ℕ, ◌<◌, ◌≡◌, ◌≢◌, refl, sym, ap, ◌∙◌, String, Bool, true, false, str_eq, not, ◌||◌, Option, none,
  some, List, find, update_where, is_some, is_some-none, some_inj, find-update_where, ltb, ltb→lt,
  arith,
}
use cubesync.Store.{Db, OneTimeToken, ok, Conn, Backend, M}
use cubesync.Store.Users.{
  get_user_by_id, set_user_email_verified, upsert_password_credential,
  upsert_password_credential_statement, create_password_credential_statement,
}
use cubesync.Store.Tokens.{
  is_one_time, is_unused, used, get_one_time_token_for_update, mark_one_time_token_used,
  revoke_all_user_refresh_tokens, create_refresh_token, insert_refresh_token,
}
use cubesync.Store.Returns.{
  Returns, Returns-of, Returns-pure, Returns-raise, Returns-if, Returns-exec, Returns-transaction,
  Returns-look, Returns-optional_look, Returns-bind, Returns-weaken, Returns-assume,
}
use cubesync.Accounts.Types.{AuthSession, AuthService, Libraries, Outside, Profile}
use cubesync.Accounts.Password.{validate_password}
use cubesync.Accounts.Sessions.{issue_session_with_queries}
use cubesync.Accounts.Issued.{Returns-or_raise, Returns-or_fail}
use cubesync.Accounts.OneTime.{
  consume_record, consume_body, consume_one_time_token, set_password_of, verify_email,
  reset_password, raise_password,
}

-- What redeems a token: VerifyEmail, or ResetPassword with a new password.
pub data Use : Type 0 where
  verification : Use
  new_password : String → Use

unfoldable pub kind_of : Use → String
kind_of verification = "verify_email"
kind_of (new_password p) = "reset_password"

unfoldable pub redeem :
    {Raw : Type 0}
    → AuthService
    → Libraries
    → Backend Raw
    → Outside
    → Use
    → String
    → M Raw AuthSession
redeem s libs backend out verification raw = verify_email s libs backend out raw
redeem s libs backend out (new_password p) raw = reset_password s libs backend out raw p

fresh_parts : (used late : Bool) → (used || not late) ≡ false → (used ≡ false) × (late ≡ true)
fresh_parts used late e = ground (arith, e)

module _ {Raw : Type 0} (s : AuthService) (libs : Libraries) (backend : Backend Raw)
    (out : Outside) where
  abbrev HasTokens : List OneTimeToken → Db Raw → Type 0
  HasTokens xs db = db.one_time_tokens ≡ xs

  -- The token was stored, unused and unexpired, and is used afterwards.
  pub record IsRedeemed (hash : ℕ) (kind : String) (before after : List OneTimeToken)
      (t : OneTimeToken) : Type 0 where
    pub found : find (is_one_time hash kind) before ≡ some t
    pub unused : t.used_at ≡ none
    pub unexpired : s.now < t.expires_at
    pub marked : after ≡ update_where (is_unused t.id) (used backend) before

  issue-HasTokens :
      (xs : List OneTimeToken) (user : Profile) (family : ℕ)
      → Returns
          (HasTokens xs)
          (issue_session_with_queries s libs backend out user family)
          (λ _. HasTokens xs)
  unfolding issue_session_with_queries create_refresh_token insert_refresh_token
  issue-HasTokens xs user family = Returns-bind _ _ (Returns-or_fail _ (λ _ db e h. h)) (λ access.
      Returns-bind _ _ (Returns-or_fail _ (λ _ db e h. h)) (λ refresh.
        Returns-bind _ _ (Returns-exec backend _ _ (λ db h. ground arith))
          (λ _. Returns-pure _ (λ db h. h))))

  -- The steps of a redemption leave the table of one-time tokens alone.
  verified-HasTokens :
      (xs : List OneTimeToken) (user : ℕ)
      → Returns (HasTokens xs) (set_user_email_verified backend user) (λ _. HasTokens xs)
  unfolding set_user_email_verified
  verified-HasTokens xs user = Returns-exec backend _ _ (λ db h. h)

  set_password-HasTokens :
      (xs : List OneTimeToken) (hash : String) (t : OneTimeToken)
      → Returns (HasTokens xs) (set_password_of s libs backend out hash t) (λ _. HasTokens xs)
  unfolding set_password_of upsert_password_credential upsert_password_credential_statement
      create_password_credential_statement revoke_all_user_refresh_tokens
  set_password-HasTokens xs hash t =
      Returns-bind _ _
        (Returns-bind _ _ (verified-HasTokens xs t.user_id)
          (λ _. Returns-exec backend _ _ (λ db h. ground arith)))
        (λ _. Returns-exec backend _ _ (λ db h. h))

  module _ (raw kind : String) (apply : OneTimeToken → M Raw (Unit {0}))
      (same : (xs : List OneTimeToken) (t : OneTimeToken)
        → Returns (HasTokens xs) (apply t) (λ _. HasTokens xs)) where
    consume_record-IsRedeemed :
        (xs : List OneTimeToken) (t : OneTimeToken)
        → find (is_one_time (libs.token_hash raw) kind) xs ≡ some t
        → Returns
            (HasTokens xs)
            (consume_record s libs backend out kind apply t)
            (λ _ db. IsRedeemed (libs.token_hash raw) kind xs db.one_time_tokens t)
    unfolding consume_record mark_one_time_token_used get_user_by_id
    consume_record-IsRedeemed xs t found =
        Returns-if _ _ _ (λ stale. Returns-raise _)
          (λ fresh. Returns-bind _ _ (same xs t) (λ _.
            Returns-bind _ _
              (Returns-exec {Q = λ _. HasTokens (update_where (is_unused t.id) (used backend) xs)}
                backend _ _ (λ db h. ap (update_where (is_unused t.id) (used backend)) h))
              (λ _. Returns-bind _ _ (Returns-look backend _ _ (λ db row h e. h)) (λ row.
                Returns-weaken (λ db h. h)
                  (λ session db h. record {
                    found = found;
                    unused = (current fresh).0;
                    unexpired = (current fresh).1;
                    marked = h;
                  })
                  (issue-HasTokens _ _ _)))))
      where
        current :
            (is_some t.used_at || not (ltb s.now t.expires_at)) ≡ false
            → (t.used_at ≡ none) × (s.now < t.expires_at)
        current e =
            let (unused, unexpired) = fresh_parts (is_some t.used_at) (ltb s.now t.expires_at) e in
            (is_some-none t.used_at unused, ltb→lt s.now t.expires_at unexpired)

    abbrev Redeemed : List OneTimeToken → AuthSession → Db Raw → Type 0
    Redeemed xs session db =
        (t : OneTimeToken) × IsRedeemed (libs.token_hash raw) kind xs db.one_time_tokens t

    consume-IsRedeemed :
        (xs : List OneTimeToken)
        → Returns
            (HasTokens xs)
            (consume_one_time_token s libs backend out raw kind apply)
            (Redeemed xs)
    unfolding consume_one_time_token consume_body get_one_time_token_for_update
    consume-IsRedeemed xs =
        Returns-if (str_eq raw "") _ _ (λ empty. Returns-raise _)
          (λ given. Returns-transaction backend _ (
            Returns-bind _ _
              (Returns-optional_look
                {Q = λ o db.
                  HasTokens xs db × (find (is_one_time (libs.token_hash raw) kind) xs ≡ o)}
                backend _ _
                (λ db h. (h, ap (find (is_one_time (libs.token_hash raw) kind)) (sym h))))
              (λ o.
                Returns-bind _ _
                  (Returns-or_raise
                    {Q = λ t db.
                      (find (is_one_time (libs.token_hash raw) kind) xs ≡ some t) × HasTokens xs db}
                    _ o (λ t db e h. (h.1 ∙ e, h.0)))
                  (λ t. Returns-assume (λ found.
                    Returns-weaken {Q' = Redeemed xs} (λ db h. h) (λ session db r. (t, r))
                      (consume_record-IsRedeemed xs t found))))))

  raise_password-HasTokens :
      (xs : List OneTimeToken) (o : Option String)
      → Returns (HasTokens xs) (raise_password o) (λ _. HasTokens xs)
  raise_password-HasTokens xs none = Returns-pure tt (λ db h. h)
  raise_password-HasTokens xs (some m) = Returns-raise _

  redeem-IsRedeemed :
      (u : Use) (raw : String) (xs : List OneTimeToken)
      → Returns (HasTokens xs) (redeem s libs backend out u raw) (λ _ db.
        (t : OneTimeToken) × IsRedeemed (libs.token_hash raw) (kind_of u) xs db.one_time_tokens t)
  unfolding redeem kind_of verify_email reset_password
  redeem-IsRedeemed verification raw xs =
      consume-IsRedeemed raw "verify_email" _ (λ ys t. verified-HasTokens ys t.user_id) xs
  redeem-IsRedeemed (new_password p) raw xs =
      Returns-bind _ _ (raise_password-HasTokens xs (validate_password p)) (λ _.
        Returns-bind _ _ (Returns-or_fail _ (λ hash db e h. h)) (λ hash.
          consume-IsRedeemed raw "reset_password" _ (λ ys t. set_password-HasTokens ys hash t) xs))

marked-used :
    {Raw : Type 0} (backend : Backend Raw) (hash : ℕ) (kind : String) (xs : List OneTimeToken)
    (t t' : OneTimeToken)
    → find (is_one_time hash kind) xs ≡ some t
    → find (is_one_time hash kind) (update_where (is_unused t.id) (used backend) xs) ≡ some t'
    → t'.used_at ≢ none
marked-used backend hash kind xs t t' found found' unused =
    let e = some_inj (
      sym found'
      ∙ find-update_where (is_one_time hash kind) (is_unused t.id) (used backend) xs t (λ x. refl)
          found) in
    ground (arith, ap (λ r. r.used_at) e)

module _ {Raw : Type 0} (s : AuthService) (libs : Libraries) (backend : Backend Raw)
    (out : Outside) where
  -- Where VerifyEmail or ResetPassword returns a session, the presented token was stored with the
  -- kind of that call, unused and unexpired, and is marked as used. From the table that it leaves,
  -- the same kind of call with the same token returns no session, whatever the server, its clock
  -- and the new password.
  pub redeem-once :
      (u u' : Use) (raw : String) (c d : Conn Raw) (session : AuthSession)
      → (redeem s libs backend out u raw c).0 ≡ ok session
      → kind_of u' ≡ kind_of u
      → d.db.one_time_tokens ≡ (redeem s libs backend out u raw c).1.db.one_time_tokens
      → ((t : OneTimeToken) × IsRedeemed s libs backend out
            (libs.token_hash raw)
            (kind_of u)
            c.db.one_time_tokens
            (redeem s libs backend out u raw c).1.db.one_time_tokens
            t)
        × ((s' : AuthService) (backend' : Backend Raw) (out' : Outside) (session' : AuthSession)
            → (redeem s' libs backend' out' u' raw d).0 ≢ ok session')
  redeem-once u u' raw c d session returned same_kind same =
      let (t, first) =
        Returns-of _ c session (redeem-IsRedeemed s libs backend out u raw c.db.one_time_tokens)
          refl returned in
      (
        (t, first),
        λ s' backend' out' session' again.
            let (t', second) =
              Returns-of _ d session'
                (redeem-IsRedeemed s' libs backend' out' u' raw d.db.one_time_tokens) refl again in
            marked-used backend (libs.token_hash raw) (kind_of u) c.db.one_time_tokens t t'
              first.found (rw (sym (same ∙ first.marked), sym same_kind) second.found)
              second.unused,
      )
