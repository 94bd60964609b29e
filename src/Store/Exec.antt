-- ===== src/Store/Exec.antt =====
-- Running statements (internal/store/db/db.go): `Queries` over the pool or over a transaction.
-- A statement is a function on the tables; the connection adds what PostgreSQL does around it. A
-- statement that fails inside a transaction is undone and aborts the transaction: every later
-- statement fails, and so does the commit. A transaction that does not commit leaves the tables
-- as they were, except that a sequence does not go back.
use cubesync.Prelude.{ℕ, String, Bool, true, false, Option, none, some, if◌then◌else◌}
use cubesync.Store.Tables.{Db}

-- What a Go function of this program returns as an error.
pub data Error : Type 0 where
  client_error auth_error : String → String → Error
  no_rows foreign_key_violation unique_violation failed : Error

pub data Result (A : Type 0) : Type 0 where
  ok : A → Result A
  err : Error → Result A

-- The statements, as the names under which they may fail.
pub data Query : Type 0 where
  begin_tx commit_tx commit_reply : Query
  acquire_advisory_lock upsert_device update_device_ack_cursor min_valid_cursor : Query
  get_session insert_session update_session delete_session : Query
  get_solve insert_solve update_solve delete_solve : Query
  get_processed_mutation record_processed_mutation prune_processed_mutations : Query
  append_change list_changes latest_change_cursor prune_change_log list_users_with_changes : Query
  snapshot_sessions snapshot_solves user_solve_aon user_solve_stats : Query
  list_sessions_paginated list_solves_for_session_paginated get_overview_stats : Query
  create_user create_admin_user delete_user set_user_email_verified : Query
  get_user_by_id get_user_by_email get_user_by_email_for_update get_user_by_identity : Query
  create_password_credential upsert_password_credential delete_password_credential : Query
  get_password_credential_by_email get_password_credential_by_user_id : Query
  create_identity count_user_identities : Query
  create_one_time_token get_one_time_token_for_update mark_one_time_token_used : Query
  invalidate_user_one_time_tokens : Query
  create_refresh_token get_refresh_token_for_update mark_refresh_token_used : Query
  revoke_refresh_token revoke_refresh_family revoke_all_user_refresh_tokens : Query

-- The server that a request meets: its clock, what it does to a document that is stored as jsonb,
-- its function lower, and which statements fail, at which contents of the tables.
pub record Backend (Raw : Type 0) : Type 0 where
  pub now : ℕ
  pub jsonb : Raw → Raw
  pub lower : String → String
  pub fault : Query → Db Raw → Bool

pub record Conn (Raw : Type 0) : Type 0 where
  pub db : Db Raw
  pub in_tx : Bool
  pub aborted : Bool

abbrev pub M : Type 0 → Type 0 → Type 0
M Raw A = Conn Raw → Result A × Conn Raw

abbrev pub Statement : Type 0 → Type 0 → Type 0
Statement Raw A = Db Raw → Result A × Db Raw

module _ {Raw A : Type 0} where
  unfoldable pub pure : A → M Raw A
  pure a c = (ok a, c)

  unfoldable pub raise : Error → M Raw A
  raise e c = (err e, c)

  unfoldable pub settle : Conn Raw → Result A × Db Raw → Result A × Conn Raw
  settle c (ok a, db) = (ok a, record c { db = db })
  settle c (err no_rows, db) = (err no_rows, c)
  settle c (err (client_error k m), db) = (err (client_error k m), record c { aborted = c.in_tx })
  settle c (err (auth_error k m), db) = (err (auth_error k m), record c { aborted = c.in_tx })
  settle c (err foreign_key_violation, db) =
      (err foreign_key_violation, record c { aborted = c.in_tx })
  settle c (err unique_violation, db) = (err unique_violation, record c { aborted = c.in_tx })
  settle c (err failed, db) = (err failed, record c { aborted = c.in_tx })

  -- One statement on the pool or in a transaction.
  unfoldable pub exec : Backend Raw → Query → Statement Raw A → M Raw A
  unfolding settle
  exec backend q statement c =
      if c.aborted
      then (err failed, c)
      else if backend.fault q c.db
      then (err failed, record c { aborted = c.in_tx })
      else settle c (statement c.db)

  unfoldable pub optional_result : Result A × Conn Raw → Result (Option A) × Conn Raw
  optional_result (ok a, c) = (ok (some a), c)
  optional_result (err no_rows, c) = (ok none, c)
  optional_result (err (client_error k m), c) = (err (client_error k m), c)
  optional_result (err (auth_error k m), c) = (err (auth_error k m), c)
  optional_result (err foreign_key_violation, c) = (err foreign_key_violation, c)
  optional_result (err unique_violation, c) = (err unique_violation, c)
  optional_result (err failed, c) = (err failed, c)

  -- A query whose pgx.ErrNoRows the caller handles: `none` for that error.
  unfoldable pub optional : M Raw A → M Raw (Option A)
  unfolding optional_result
  optional m c = optional_result (m c)

  unfoldable pub ignore_result : Result A × Conn Raw → Result (Unit {0}) × Conn Raw
  ignore_result (r, c) = (ok tt, c)

  -- A call whose error the caller throws away, `_ = f()`.
  unfoldable pub ignore : M Raw A → M Raw (Unit {0})
  unfolding ignore_result
  ignore m c = ignore_result (m c)

module _ {Raw A B : Type 0} where
  unfoldable pub continue : (A → M Raw B) → Result A × Conn Raw → Result B × Conn Raw
  continue f (ok a, c) = f a c
  continue f (err e, c) = (err e, c)

  infixl 10 ◌>>=◌ ◌>>◌
  unfoldable pub ◌>>=◌ : M Raw A → (A → M Raw B) → M Raw B
  unfolding continue pure raise
  ◌>>=◌ m f c = continue f (m c)

  abbrev pub ◌>>◌ : M Raw A → M Raw B → M Raw B
  m >> k = m >>= λ _. k

module _ {Raw : Type 0} where
  -- The tables of `before`, and the sequence as the transaction left it.
  unfoldable pub rolled_back : Conn Raw → Conn Raw → Conn Raw
  rolled_back before c = record before {
    db = record before.db { last_change_id = c.db.last_change_id };
  }

module _ {Raw A : Type 0} where
  unfoldable pub commit : Backend Raw → Conn Raw → A → Conn Raw → Result A × Conn Raw
  unfolding rolled_back
  commit backend before a c =
      if c.aborted
      then (err failed, rolled_back before c)
      else if backend.fault commit_tx c.db
      then (err failed, rolled_back before c)
      else if backend.fault commit_reply c.db
      then (err failed, record before { db = c.db })
      else (ok a, record before { db = c.db })

  unfoldable pub finish : Backend Raw → Conn Raw → Result A × Conn Raw → Result A × Conn Raw
  unfolding commit
  finish backend before (ok a, c) = commit backend before a c
  finish backend before (err e, c) = (err e, rolled_back before c)

  -- pool.Begin, the body, tx.Commit, and the deferred tx.Rollback. Where the reply to a commit is
  -- lost, the caller sees an error and the tables have changed.
  unfoldable pub transaction : Backend Raw → M Raw A → M Raw A
  unfolding finish
  transaction backend body c =
      if backend.fault begin_tx c.db
      then (err failed, c)
      else finish backend c (body (record { db = c.db; in_tx = true; aborted = false }))
