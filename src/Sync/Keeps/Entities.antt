-- ===== src/Sync/Keeps/Entities.antt =====
-- The statements on sessions and solves keep what their writes keep.
use cubesync.Prelude.{
  ℕ, ◌≡◌, refl, String, Option, none, some, ltb, eqb_ℤ, ℤ, pos, update_where, if_both, Bool-cases,
  inl, inr,
}
use cubesync.Store.{Db, CubeSession, Solf, Backend}
use cubesync.Store.Keeps.{Keeps, Keeps-exec}
use cubesync.Store.Queries
use cubesync.Store.Queries.{
  upsert_device_statement, update_device_ack_cursor_statement, append_change_statement,
  record_processed_mutation_statement, list_changes_statement,
}
use cubesync.Store.Entities.{
  SessionParams, SolveParams, is_session, is_solve, solve_of, get_session, get_solve, updated_solve,
  update_session_row, update_solve_row, update_session, delete_session, update_solve, delete_solve,
  insert_session, insert_solve, check_session, row_or_none, has_session, session_undeleted-some,
  solve_undeleted-some,
}
use cubesync.Sync.Keeps.Closed.{EntityClosed, Written}

module _ {Raw : Type 0} (backend : Backend Raw) (user : ℕ) (P : Db Raw → Type 0)
    (closed : EntityClosed backend user P) where
  pub append_change-Keeps :
      (entity_type : String) (entity_id : ℕ) (operation : String) (version : ℕ) (payload : Raw)
      → Keeps P (Queries.append_change backend user entity_type entity_id operation version payload)
  unfolding Queries.append_change
  append_change-Keeps t i o v p = Keeps-exec backend _ _ (closed.change t i o v p)

  row_or_none-Keeps : {A : Type 0} (o : Option A) (db : Db Raw) → P db → P (row_or_none o db).1
  unfolding row_or_none
  row_or_none-Keeps none db h = h
  row_or_none-Keeps (some a) db h = h

  pub get_session-Keeps : (id : ℕ) → Keeps P (get_session backend user id)
  unfolding get_session
  get_session-Keeps id = Keeps-exec backend _ _ (λ db h. row_or_none-Keeps _ db h)

  pub get_solve-Keeps : (id : ℕ) → Keeps P (get_solve backend user id)
  unfolding get_solve
  get_solve-Keeps id = Keeps-exec backend _ _ (λ db h. row_or_none-Keeps _ db h)

  pub insert_session-Keeps : (p : SessionParams) → Keeps P (insert_session backend user p)
  unfolding insert_session
  insert_session-Keeps p = Keeps-exec backend _ _ (closed.new_session p)

  pub insert_solve-Keeps : (p : SolveParams) → Keeps P (insert_solve backend user p)
  unfolding insert_solve
  insert_solve-Keeps p = Keeps-exec backend _ _ (closed.new_solve p)

  session_row-Keeps :
      (version : ℤ) (f : CubeSession → CubeSession) (o : Option CubeSession) (db : Db Raw)
      → P db
      → ((r : CubeSession)
          → o ≡ some r
          → P (record db {
            cube_sessions = update_where (is_session user r.id) f db.cube_sessions;
          }))
      → P (update_session_row backend user version f o db).1
  unfolding update_session_row
  session_row-Keeps version f none db h k = h
  session_row-Keeps version f (some r) db h k =
      if_both (Written P) (eqb_ℤ (pos r.version) version)
        (if_both (Written P) (ltb r.version Queries.max_int64) (k r refl) h) h

  solve_row-Keeps :
      (version : ℤ) (f : Solf → Solf) (o : Option Solf) (db : Db Raw)
      → P db
      → ((r : Solf)
          → o ≡ some r
          → P (record db { solves = update_where (is_solve user r.id) f db.solves }))
      → P (update_solve_row backend user version f o db).1
  unfolding update_solve_row
  solve_row-Keeps version f none db h k = h
  solve_row-Keeps version f (some r) db h k =
      if_both (Written P) (eqb_ℤ (pos r.version) version)
        (if_both (Written P) (ltb r.version Queries.max_int64) (k r refl) h) h

  pub update_session-Keeps :
      (p : SessionParams) (version : ℤ) → Keeps P (update_session backend user p version)
  unfolding update_session
  update_session-Keeps p version =
      Keeps-exec backend _ _
        λ db h. session_row-Keeps version _ _ db h (λ r e. closed.changed_session p r db h e)

  pub delete_session-Keeps :
      (id : ℕ) (version : ℤ) → Keeps P (delete_session backend user id version)
  unfolding delete_session
  delete_session-Keeps id version = Keeps-exec backend _ _ λ db h.
      session_row-Keeps version _ _ db h
        (λ r e. closed.removed_session id r db h (session_undeleted-some _ r e))

  changed_solve_row-Keeps :
      (p : SolveParams) (version : ℤ) (o : Option Solf) (db : Db Raw)
      → P db
      → solve_of user p.id db ≡ o
      → P
          (check_session backend user p db
            (update_solve_row backend user version (updated_solve backend p) o db)).1
  unfolding check_session update_solve_row
  changed_solve_row-Keeps p version none db h e = h
  changed_solve_row-Keeps p version (some r) db h e =
      elim (Bool-cases (eqb_ℤ (pos r.version) version)) [
        | inr stale ↦ rw stale h
        | inl same ↦ rw same (elim (Bool-cases (ltb r.version Queries.max_int64)) [
          | inr full ↦ rw full h
          | inl room ↦ rw room (elim (Bool-cases (has_session user p.session_id db.cube_sessions)) [
            | inl found ↦ rw found (closed.changed_solve p r db h e found)
            | inr missing ↦ rw missing h
          ])
        ])
      ]

  pub update_solve-Keeps :
      (p : SolveParams) (version : ℤ) → Keeps P (update_solve backend user p version)
  unfolding update_solve
  update_solve-Keeps p version =
      Keeps-exec backend _ _ (λ db h. changed_solve_row-Keeps p version _ db h refl)

  pub delete_solve-Keeps : (id : ℕ) (version : ℤ) → Keeps P (delete_solve backend user id version)
  unfolding delete_solve
  delete_solve-Keeps id version = Keeps-exec backend _ _ λ db h.
      solve_row-Keeps version _ _ db h
        (λ r e. closed.removed_solve id r db h (solve_undeleted-some _ r e))
