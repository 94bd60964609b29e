-- ===== src/Accounts/Refresh/Reuse.antt =====
-- The reuse of a refresh token, which closes its family.
use cubesync.Prelude.{
  ℕ, ◌+◌, ◌<◌, ◌≡◌, ◌≢◌, refl, sym, ap, ◌∙◌, String, true, false, ◌||◌, none, some, if◌then◌else◌,
  find, update_where, is_some, All-find, All-update_each, some_inj, arith,
}
use cubesync.Store.{
  Db, RefreshToken, auth_error, Error, ok, err, Conn, Query, Backend, pure, raise, settle, ◌>>=◌,
  continue,
}
use cubesync.Store.Tokens.{
  has_hash, is_live_in, revoked, get_refresh_token_for_update, revoke_refresh_family,
}
use cubesync.Store.Reliable.{
  IsReliable, begun, exec_reliable, look_reliable, transaction_reliable-ok,
}
use cubesync.Accounts.Types.{AuthSession, AuthService, Libraries, Outside, refresh_reuse_grace}
use cubesync.Accounts.Sessions.{or_raise}
use cubesync.Accounts.Refresh.{in_grace, rotate, refresh_body, refresh}
use cubesync.Accounts.Refresh.Safety.{refresh-IsAuthorised}

abbrev pub token_reused : Error
token_reused = auth_error "refresh_token_reused" "refresh token reuse detected; sign in again"

-- Revoked, or used more than 30 seconds ago.
pub data IsSpent (now : ℕ) (t : RefreshToken) : Type 0 where
  was_revoked : is_some t.revoked_at ≡ true → IsSpent now t
  was_used : (u : ℕ) → t.used_at ≡ some u → u + refresh_reuse_grace < now → IsSpent now t

spent_late : (now : ℕ) (t : RefreshToken) → IsSpent now t → in_grace now t ≡ false
spent_late now t (was_revoked e) = ground (arith, e)
spent_late now t (was_used u e late) = ground (arith, e, late)

spent_touched :
    (now : ℕ) (t : RefreshToken)
    → IsSpent now t
    → (is_some t.used_at || is_some t.revoked_at) ≡ true
spent_touched now t (was_revoked e) = ground (arith, e)
spent_touched now t (was_used u e late) = ground (arith, e)

module _ {Raw : Type 0} (s : AuthService) (libs : Libraries) (backend : Backend Raw) (out : Outside)
    (reliable : IsReliable backend) where
  -- The tables with the family revoked.
  abbrev closed : ℕ → Db Raw → Db Raw
  closed family db = record db {
    refresh_tokens = update_where (is_live_in family) (revoked backend) db.refresh_tokens;
  }

  rotate-spent :
      (t : RefreshToken) (c : Conn Raw)
      → c.aborted ≡ false
      → IsSpent s.now t
      → rotate s libs backend out t c ≡ (ok none, record c { db = closed t.family_id c.db })
  unfolding rotate revoke_refresh_family ◌>>=◌ continue pure settle
  rotate-spent t c live spent = simp (
    spent_late s.now t spent,
    spent_touched s.now t spent,
    exec_reliable backend reliable Query.revoke_refresh_family
        (λ db. (ok tt, closed t.family_id db)) c live,
  )

  -- Refresh of a token that was spent.
  refresh-spent :
      (raw : String) (c : Conn Raw) (t : RefreshToken)
      → c.aborted ≡ false
      → find (has_hash (libs.token_hash raw)) c.db.refresh_tokens ≡ some t
      → IsSpent s.now t
      → refresh s libs backend out raw c
        ≡ (err token_reused, record c { db = closed t.family_id c.db })
  unfolding refresh refresh_body get_refresh_token_for_update or_raise ◌>>=◌ continue pure raise
  refresh-spent raw c t live found spent = simp (
      transaction_reliable-ok backend reliable (refresh_body s libs backend out raw) c none
        (record { db = closed t.family_id c.db; in_tx = true; aborted = false })
        (simp (
          look_reliable backend reliable Query.get_refresh_token_for_update
              (λ db. find (has_hash (libs.token_hash raw)) db.refresh_tokens) (begun c.db) (some t)
              refl found,
          rotate-spent t (begun c.db) refl spent,
        ))
        refl)

-- Not live, if of the family.
abbrev ClosedOff : ℕ → RefreshToken → Type 0
ClosedOff family r = r.family_id ≡ family → r.revoked_at ≢ none

closed_row :
    {Raw : Type 0} (backend : Backend Raw) (family : ℕ) (r : RefreshToken)
    → ClosedOff family (if is_live_in family r then revoked backend r else r)
closed_row backend family r same e = ground arith

module _ {Raw : Type 0} (s : AuthService) (libs : Libraries) (backend : Backend Raw)
    (out : Outside) where
  -- Where no statement fails, Refresh of a stored token that is revoked, or was used more than 30
  -- seconds ago, fails with refresh_token_reused and revokes its family: from the tables that it
  -- leaves, Refresh of no token of that family returns a session, whatever the server and its
  -- clock.
  pub refresh-closes_family :
      (raw : String) (c : Conn Raw) (t : RefreshToken)
      → IsReliable backend
      → c.aborted ≡ false
      → find (has_hash (libs.token_hash raw)) c.db.refresh_tokens ≡ some t
      → IsSpent s.now t
      → ((refresh s libs backend out raw c).0 ≡ err token_reused)
        × ((s' : AuthService) (backend' : Backend Raw) (out' : Outside) (raw' : String)
              (d : Conn Raw) (t' : RefreshToken) (session : AuthSession)
            → d.db ≡ (refresh s libs backend out raw c).1.db
            → find (has_hash (libs.token_hash raw')) d.db.refresh_tokens ≡ some t'
            → t'.family_id ≡ t.family_id
            → (refresh s' libs backend' out' raw' d).0 ≢ ok session)
  refresh-closes_family raw c t reliable live found spent =
      let ran = refresh-spent s libs backend out reliable raw c t live found spent in
      (
        ap (λ r. r.0) ran,
        λ s' backend' out' raw' d t' session same found' family returned.
            let (t2, authorised) =
              refresh-IsAuthorised s' libs backend' out' raw' d session returned in
            All-find (ClosedOff t.family_id) (has_hash (libs.token_hash raw')) d.db.refresh_tokens
              t'
              (rw (same ∙ ap (λ r. r.1.db) ran) (
                All-update_each (ClosedOff t.family_id) (is_live_in t.family_id) (revoked backend)
                  c.db.refresh_tokens (closed_row backend t.family_id)))
              found' family
              (ap (λ r. r.revoked_at) (some_inj (sym found' ∙ authorised.found)) ∙ authorised.live),
      )
