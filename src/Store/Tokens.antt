-- ===== src/Store/Tokens.antt =====
-- internal/store/db/auth.sql.go: the statements on one_time_tokens and refresh_tokens, with the
-- constraints of db/migrations/00001_initial.sql.
use cubesync.Prelude.{
  ℕ, String, Bool, not, ◌&&◌, ◌||◌, none, some, [], ◌∷◌, ◌++◌, ◌==◌, if◌then◌else◌, find,
  update_where, any, str_eq, is_some,
}
use cubesync.Store.Tables.{RefreshToken, OneTimeToken}
use cubesync.Store.Exec.{
  foreign_key_violation, unique_violation, failed, ok, err, Query, Backend, M, Statement, exec,
}
use cubesync.Store.Queries.{has_user}
use cubesync.Store.Entities.{row_or_none}

abbrev pub is_one_time : ℕ → String → OneTimeToken → Bool
is_one_time hash kind t = t.token_hash == hash && str_eq t.kind kind

abbrev pub is_unused : ℕ → OneTimeToken → Bool
is_unused id t = t.id == id && not (is_some t.used_at)

abbrev pub is_pending : ℕ → String → OneTimeToken → Bool
is_pending user kind t = t.user_id == user && str_eq t.kind kind && not (is_some t.used_at)

abbrev pub has_hash : ℕ → RefreshToken → Bool
has_hash hash t = t.token_hash == hash

abbrev pub is_fresh : ℕ → RefreshToken → Bool
is_fresh id t = t.id == id && not (is_some t.used_at)

abbrev pub is_live_hash : ℕ → RefreshToken → Bool
is_live_hash hash t = t.token_hash == hash && not (is_some t.revoked_at)

abbrev pub is_live_in : ℕ → RefreshToken → Bool
is_live_in family t = t.family_id == family && not (is_some t.revoked_at)

abbrev pub is_live_of : ℕ → RefreshToken → Bool
is_live_of user t = t.user_id == user && not (is_some t.revoked_at)

module _ {Raw : Type 0} (backend : Backend Raw) where
  abbrev pub used : OneTimeToken → OneTimeToken
  used t = record t { used_at = some backend.now }

  abbrev pub used_refresh : RefreshToken → RefreshToken
  used_refresh t = record t { used_at = some backend.now }

  abbrev pub revoked : RefreshToken → RefreshToken
  revoked t = record t { revoked_at = some backend.now }

  unfoldable pub insert_one_time_token : OneTimeToken → Statement Raw (Unit {0})
  insert_one_time_token t db =
      if not (str_eq t.kind "verify_email") && not (str_eq t.kind "reset_password")
      then (err failed, db)
      else if any (λ x. x.id == t.id || x.token_hash == t.token_hash) db.one_time_tokens
      then (err unique_violation, db)
      else if has_user t.user_id db.users
      then (ok tt, record db { one_time_tokens = db.one_time_tokens ++ t ∷ [] })
      else (err foreign_key_violation, db)

  abbrev pub new_one_time_token : ℕ → ℕ → String → ℕ → ℕ → OneTimeToken
  new_one_time_token id user kind hash expires = record {
    id = id;
    user_id = user;
    kind = kind;
    token_hash = hash;
    expires_at = expires;
    used_at = none;
    created_at = backend.now;
  }

  unfoldable pub create_one_time_token : ℕ → ℕ → String → ℕ → ℕ → M Raw (Unit {0})
  create_one_time_token id user kind hash expires =
      exec backend Query.create_one_time_token
        (insert_one_time_token (new_one_time_token id user kind hash expires))

  unfoldable pub get_one_time_token_for_update : ℕ → String → M Raw OneTimeToken
  unfolding row_or_none
  get_one_time_token_for_update hash kind =
      exec backend Query.get_one_time_token_for_update
        λ db. row_or_none (find (is_one_time hash kind) db.one_time_tokens) db

  unfoldable pub mark_one_time_token_used : ℕ → M Raw (Unit {0})
  mark_one_time_token_used id = exec backend Query.mark_one_time_token_used λ db.
      (ok tt, record db { one_time_tokens = update_where (is_unused id) used db.one_time_tokens })

  unfoldable pub invalidate_user_one_time_tokens : ℕ → String → M Raw (Unit {0})
  invalidate_user_one_time_tokens user kind =
      exec backend Query.invalidate_user_one_time_tokens λ db. (
        ok tt,
        record db { one_time_tokens = update_where (is_pending user kind) used db.one_time_tokens },
      )

  abbrev pub new_refresh_token : ℕ → ℕ → ℕ → ℕ → ℕ → RefreshToken
  new_refresh_token id family user hash expires = record {
    id = id;
    family_id = family;
    user_id = user;
    token_hash = hash;
    expires_at = expires;
    used_at = none;
    revoked_at = none;
    created_at = backend.now;
  }

  unfoldable pub insert_refresh_token : RefreshToken → Statement Raw (Unit {0})
  insert_refresh_token t db =
      if any (λ x. x.id == t.id || x.token_hash == t.token_hash) db.refresh_tokens
      then (err unique_violation, db)
      else if has_user t.user_id db.users
      then (ok tt, record db { refresh_tokens = db.refresh_tokens ++ t ∷ [] })
      else (err foreign_key_violation, db)

  unfoldable pub create_refresh_token : ℕ → ℕ → ℕ → ℕ → ℕ → M Raw (Unit {0})
  create_refresh_token id family user hash expires =
      exec backend Query.create_refresh_token
        (insert_refresh_token (new_refresh_token id family user hash expires))

  unfoldable pub get_refresh_token_for_update : ℕ → M Raw RefreshToken
  unfolding row_or_none
  get_refresh_token_for_update hash =
      exec backend Query.get_refresh_token_for_update
        λ db. row_or_none (find (has_hash hash) db.refresh_tokens) db

  unfoldable pub mark_refresh_token_used : ℕ → M Raw (Unit {0})
  mark_refresh_token_used id = exec backend Query.mark_refresh_token_used λ db. (
    ok tt,
    record db { refresh_tokens = update_where (is_fresh id) used_refresh db.refresh_tokens },
  )

  unfoldable pub revoke_refresh_token : ℕ → M Raw (Unit {0})
  revoke_refresh_token hash = exec backend Query.revoke_refresh_token λ db. (
    ok tt,
    record db { refresh_tokens = update_where (is_live_hash hash) revoked db.refresh_tokens },
  )

  unfoldable pub revoke_refresh_family : ℕ → M Raw (Unit {0})
  revoke_refresh_family family = exec backend Query.revoke_refresh_family λ db. (
    ok tt,
    record db { refresh_tokens = update_where (is_live_in family) revoked db.refresh_tokens },
  )

  unfoldable pub revoke_all_user_refresh_tokens : ℕ → M Raw (Unit {0})
  revoke_all_user_refresh_tokens user = exec backend Query.revoke_all_user_refresh_tokens λ db. (
    ok tt,
    record db { refresh_tokens = update_where (is_live_of user) revoked db.refresh_tokens },
  )
