-- ===== src/Accounts/Refresh.antt =====
-- internal/auth/service.go: Refresh and Logout.
pub mod Safety
pub mod Reuse
use cubesync.Prelude.{
  ℕ, ◌+◌, String, Bool, true, false, not, ◌&&◌, ◌||◌, Option, none, some, ltb, leb, if◌then◌else◌,
  is_some,
}
use cubesync.Store.{
  RefreshToken, auth_error, Backend, M, pure, raise, optional, transaction, ◌>>=◌, ◌>>◌,
}
use cubesync.Store.Users.{get_user_by_id}
use cubesync.Store.Tokens.{
  get_refresh_token_for_update, mark_refresh_token_used, revoke_refresh_family,
  revoke_refresh_token,
}
use cubesync.Accounts.Types.{
  AuthSession, AuthService, Libraries, Outside, user_from_db, refresh_reuse_grace,
  invalid_refresh_token,
}
use cubesync.Accounts.Sessions.{or_raise, issue_session_with_queries}

-- now.Sub(used_at) <= refreshReuseGrace, of integers.
abbrev pub used_within : ℕ → Option ℕ → Bool
used_within now none = false
used_within now (some t) = leb now (t + refresh_reuse_grace)

-- A retry shortly after rotation.
abbrev pub in_grace : ℕ → RefreshToken → Bool
in_grace now t = not (is_some t.revoked_at) && (used_within now t.used_at && ltb now t.expires_at)

module _ {Raw : Type 0} (s : AuthService) (libs : Libraries) (backend : Backend Raw)
    (out : Outside) where
  -- The user of the token, and a new token in its family.
  unfoldable pub reissue : RefreshToken → M Raw (Option AuthSession)
  reissue t = do
    row ← get_user_by_id backend t.user_id
    session ← issue_session_with_queries s libs backend out (user_from_db row) t.family_id
    pure (some session)

  -- `none` is the reuse of a token, whose family is revoked.
  unfoldable pub rotate : RefreshToken → M Raw (Option AuthSession)
  rotate t =
      if in_grace s.now t
      then reissue t
      else if is_some t.used_at || is_some t.revoked_at
      then revoke_refresh_family backend t.family_id >> pure none
      else if not (ltb s.now t.expires_at)
      then raise invalid_refresh_token
      else mark_refresh_token_used backend t.id >> reissue t

  unfoldable pub refresh_body : String → M Raw (Option AuthSession)
  refresh_body raw = do
    found ← optional (get_refresh_token_for_update backend (libs.token_hash raw))
    t ← or_raise invalid_refresh_token found
    rotate t

  unfoldable pub refresh : String → M Raw AuthSession
  refresh raw =
      transaction backend (refresh_body raw)
      >>= or_raise (auth_error "refresh_token_reused" "refresh token reuse detected; sign in again")

  unfoldable pub logout : String → M Raw (Unit {0})
  logout raw = revoke_refresh_token backend (libs.token_hash raw)
