-- ===== src/Sync/Keeps/Closed.antt =====
-- A property that every statement of one user's synchronization keeps is kept by `sync`.
-- `Closed` is what a property supplies; the rules below serve the calls of the store.
use cubesync.Prelude.{ℕ, ◌≡◌, String, true, Option, none, some, ℤ, pos, negsuc, update_where}
use cubesync.Store.{ProcessedMutation, Db, CubeSession, Solf, Result, Backend}
use cubesync.Store.Keeps.{Keeps, Keeps-exec}
use cubesync.Store.Queries
use cubesync.Store.Queries.{
  upsert_device_statement, update_device_ack_cursor_statement, append_change_statement,
  record_processed_mutation_statement, list_changes_statement,
}
use cubesync.Store.Entities.{
  SessionParams, SolveParams, is_session, is_solve, session_of, solve_of, insert_session_statement,
  insert_solve_statement, updated_session, deleted_session, updated_solve, deleted_solve,
  has_session,
}

-- The statements of a mutation that write, each at the row that it writes.
pub record EntityClosed {Raw : Type 0} (backend : Backend Raw) (user : ℕ) (P : Db Raw → Type 0)
    : Type 0 where
  pub change :
      (entity_type : String) (entity_id : ℕ) (operation : String) (version : ℕ) (payload : Raw)
      (db : Db Raw)
      → P db
      → P
          (append_change_statement backend user entity_type entity_id operation version payload
            db).1
  pub new_session :
      (p : SessionParams) (db : Db Raw) → P db → P (insert_session_statement backend user p db).1
  pub new_solve :
      (p : SolveParams) (db : Db Raw) → P db → P (insert_solve_statement backend user p db).1
  pub changed_session :
      (p : SessionParams) (r : CubeSession) (db : Db Raw)
      → P db
      → session_of user p.id db ≡ some r
      → P (record db {
        cube_sessions =
            update_where (is_session user r.id) (updated_session backend p) db.cube_sessions;
      })
  pub removed_session :
      (id : ℕ) (r : CubeSession) (db : Db Raw)
      → P db
      → session_of user id db ≡ some r
      → P (record db {
        cube_sessions =
            update_where (is_session user r.id) (deleted_session backend) db.cube_sessions;
      })
  pub changed_solve :
      (p : SolveParams) (r : Solf) (db : Db Raw)
      → P db
      → solve_of user p.id db ≡ some r
      → has_session user p.session_id db.cube_sessions ≡ true
      → P (record db {
        solves = update_where (is_solve user r.id) (updated_solve backend p) db.solves;
      })
  pub removed_solve :
      (id : ℕ) (r : Solf) (db : Db Raw)
      → P db
      → solve_of user id db ≡ some r
      → P (record db {
        solves = update_where (is_solve user r.id) (deleted_solve backend) db.solves;
      })

-- The other statements of a request that write.
pub record Closed {Raw : Type 0} (backend : Backend Raw) (user : ℕ) (P : Db Raw → Type 0)
    : Type 0 where
  pub device :
      (id : ℕ) (name platform : String) (db : Db Raw)
      → P db
      → P (upsert_device_statement backend id user name platform db).1
  pub ack :
      (id : ℕ) (cursor : ℤ) (db : Db Raw)
      → P db
      → P (update_device_ack_cursor_statement backend user id cursor db).1
  pub processed :
      (device mutation : ℕ) (outcome : Raw) (db : Db Raw)
      → P db
      → P (record_processed_mutation_statement backend user device mutation outcome db).1
  pub entities : EntityClosed backend user P

abbrev pub Written : {Raw A : Type 0} → (Db Raw → Type 0) → Result A × Db Raw → Type 0
Written P r = P r.1

module _ {Raw : Type 0} (backend : Backend Raw) (user : ℕ) (P : Db Raw → Type 0)
    (closed : Closed backend user P) where
  pub upsert_device-Keeps :
      (id : ℕ) (name platform : String)
      → Keeps P (Queries.upsert_device backend id user name platform)
  unfolding Queries.upsert_device
  upsert_device-Keeps id name platform = Keeps-exec backend _ _ (closed.device id name platform)

  pub ack-Keeps :
      (id : ℕ) (cursor : ℤ) → Keeps P (Queries.update_device_ack_cursor backend user id cursor)
  unfolding Queries.update_device_ack_cursor
  ack-Keeps id cursor = Keeps-exec backend _ _ (closed.ack id cursor)

  pub processed-Keeps :
      (device mutation : ℕ) (outcome : Raw)
      → Keeps P (Queries.record_processed_mutation backend user device mutation outcome)
  unfolding Queries.record_processed_mutation
  processed-Keeps device mutation outcome =
      Keeps-exec backend _ _ (closed.processed device mutation outcome)

  pub list_changes-Keeps :
      (cursor limit : ℤ) → Keeps P (Queries.list_changes backend user cursor limit)
  unfolding Queries.list_changes list_changes_statement
  list_changes-Keeps cursor (pos n) = Keeps-exec backend _ _ (λ db h. h)
  list_changes-Keeps cursor (negsuc n) = Keeps-exec backend _ _ (λ db h. h)

  pub lock-Keeps : (key : ℤ) → Keeps P (Queries.acquire_advisory_lock backend key)
  unfolding Queries.acquire_advisory_lock
  lock-Keeps key = Keeps-exec backend _ _ (λ db h. h)

  pub min_valid_cursor-Keeps : (cutoff : ℕ) → Keeps P (Queries.min_valid_cursor backend user cutoff)
  unfolding Queries.min_valid_cursor
  min_valid_cursor-Keeps cutoff = Keeps-exec backend _ _ (λ db h. h)

  get_processed-Keeps :
      (o : Option (ProcessedMutation Raw)) (db : Db Raw) → P db → P (Queries.outcome_row o db).1
  unfolding Queries.outcome_row
  get_processed-Keeps none db h = h
  get_processed-Keeps (some p) db h = h

  pub get_processed_mutation-Keeps :
      (device mutation : ℕ) → Keeps P (Queries.get_processed_mutation backend user device mutation)
  unfolding Queries.get_processed_mutation
  get_processed_mutation-Keeps device mutation =
      Keeps-exec backend _ _ (λ db h. get_processed-Keeps _ db h)
