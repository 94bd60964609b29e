-- ===== src/Store/Entities.antt =====
-- internal/store/db/sync.sql.go: the statements on cube_sessions and solves. A row is addressed
-- by its user and its id; an update or a deletion also by the version that the client saw.
use cubesync.Prelude.{
  List, ◌≡◌, arith, ℕ, ◌+◌, String, Bool, true, ◌&&◌, Option, none, some, [], ◌∷◌, ◌++◌, ltb, ◌==◌,
  if◌then◌else◌, find, update_where, ℤ, pos, eqb_ℤ, is_some,
}
use cubesync.Store.Tables.{CubeSession, Solf, Db}
use cubesync.Store.Exec.{
  no_rows, foreign_key_violation, unique_violation, failed, Result, ok, err, Query, Backend, M,
  Statement, exec,
}
use cubesync.Store.Queries.{max_int64}

-- The values of the columns that a client sets.
pub record SessionParams : Type 0 where
  pub id : ℕ
  pub name : String
  pub event : String
  pub kind : String
  pub started_at : ℕ
  pub ended_at : Option ℕ
  pub archived : Bool

pub record SolveParams : Type 0 where
  pub id : ℕ
  pub session_id : Option ℕ
  pub duration_ms : ℕ
  pub penalty : String
  pub solved_at : ℕ
  pub scramble : String
  pub event : String
  pub timing_device : String

abbrev pub is_session : ℕ → ℕ → CubeSession → Bool
is_session user id r = r.user_id == user && r.id == id

abbrev pub is_solve : ℕ → ℕ → Solf → Bool
is_solve user id r = r.user_id == user && r.id == id

-- the foreign key of a solve: a session id that is not NULL names a session of the user
unfoldable pub has_session : ℕ → Option ℕ → List CubeSession → Bool
has_session user none sessions = true
has_session user (some s) sessions = is_some (find (is_session user s) sessions)

module _ {Raw : Type 0} where
  abbrev pub session_of : ℕ → ℕ → Db Raw → Option CubeSession
  session_of user id db = find (is_session user id) db.cube_sessions

  abbrev pub solve_of : ℕ → ℕ → Db Raw → Option Solf
  solve_of user id db = find (is_solve user id) db.solves

  -- One row of a table, or pgx.ErrNoRows.
  unfoldable pub row_or_none : {A : Type 0} → Option A → Statement Raw A
  row_or_none none db = (err no_rows, db)
  row_or_none (some a) db = (ok a, db)

abbrev pub session_undeleted : Option CubeSession → Option CubeSession
session_undeleted none = none
session_undeleted (some r) = if is_some r.deleted_at then none else some r

pub session_undeleted-some :
    (o : Option CubeSession) (r : CubeSession) → session_undeleted o ≡ some r → o ≡ some r
session_undeleted-some none r e = cc
session_undeleted-some (some x) r e = ground arith

module _ {Raw : Type 0} (backend : Backend Raw) where
  unfoldable pub get_session : ℕ → ℕ → M Raw CubeSession
  unfolding row_or_none
  get_session user id = exec backend Query.get_session λ db. row_or_none (session_of user id db) db

  abbrev pub new_session : ℕ → SessionParams → CubeSession
  new_session user p = record {
    id = p.id;
    user_id = user;
    name = p.name;
    event = p.event;
    kind = p.kind;
    started_at = p.started_at;
    ended_at = p.ended_at;
    archived = p.archived;
    version = 1;
    updated_at = backend.now;
    deleted_at = none;
  }

  -- The row that the statement writes, and returns.
  abbrev pub updated_session : SessionParams → CubeSession → CubeSession
  updated_session p r = record r {
    name = p.name;
    event = p.event;
    kind = p.kind;
    started_at = p.started_at;
    ended_at = p.ended_at;
    archived = p.archived;
    version = r.version + 1;
    updated_at = backend.now;
    deleted_at = none;
  }

  abbrev pub deleted_session : CubeSession → CubeSession
  deleted_session r = record r {
    version = r.version + 1;
    updated_at = backend.now;
    deleted_at = some backend.now;
  }

  unfoldable pub insert_session_statement : ℕ → SessionParams → Statement Raw CubeSession
  insert_session_statement user p db =
      if is_some (session_of user p.id db) then (err unique_violation, db) else (
        ok (new_session user p),
        record db { cube_sessions = db.cube_sessions ++ new_session user p ∷ [] },
      )

  unfoldable pub insert_session : ℕ → SessionParams → M Raw CubeSession
  insert_session user p = exec backend Query.insert_session (insert_session_statement user p)

  -- The row found, if it is at the version and the next version is a bigint.
  unfoldable pub update_session_row :
      ℕ → ℤ → (CubeSession → CubeSession) → Option CubeSession → Statement Raw CubeSession
  update_session_row user version f none db = (err no_rows, db)
  update_session_row user version f (some r) db =
      if eqb_ℤ (pos r.version) version
      then if ltb r.version max_int64
        then (
          ok (f r),
          record db { cube_sessions = update_where (is_session user r.id) f db.cube_sessions },
        )
        else (err failed, db)
      else (err no_rows, db)

  unfoldable pub update_session : ℕ → SessionParams → ℤ → M Raw CubeSession
  unfolding update_session_row
  update_session user p version =
      exec backend Query.update_session
        λ db. update_session_row user version (updated_session p) (session_of user p.id db) db

  unfoldable pub delete_session : ℕ → ℕ → ℤ → M Raw CubeSession
  unfolding update_session_row
  delete_session user id version = exec backend Query.delete_session λ db.
      update_session_row user version deleted_session (session_undeleted (session_of user id db)) db

abbrev pub solve_undeleted : Option Solf → Option Solf
solve_undeleted none = none
solve_undeleted (some r) = if is_some r.deleted_at then none else some r

pub solve_undeleted-some : (o : Option Solf) (r : Solf) → solve_undeleted o ≡ some r → o ≡ some r
solve_undeleted-some none r e = cc
solve_undeleted-some (some x) r e = ground arith

module _ {Raw : Type 0} (backend : Backend Raw) where
  unfoldable pub get_solve : ℕ → ℕ → M Raw Solf
  unfolding row_or_none
  get_solve user id = exec backend Query.get_solve λ db. row_or_none (solve_of user id db) db

  abbrev pub new_solve : ℕ → SolveParams → Solf
  new_solve user p = record {
    id = p.id;
    user_id = user;
    session_id = p.session_id;
    duration_ms = p.duration_ms;
    penalty = p.penalty;
    solved_at = p.solved_at;
    scramble = p.scramble;
    event = p.event;
    timing_device = p.timing_device;
    version = 1;
    updated_at = backend.now;
    deleted_at = none;
  }

  -- The row that the statement writes, and returns.
  abbrev pub updated_solve : SolveParams → Solf → Solf
  updated_solve p r = record r {
    session_id = p.session_id;
    duration_ms = p.duration_ms;
    penalty = p.penalty;
    solved_at = p.solved_at;
    scramble = p.scramble;
    event = p.event;
    timing_device = p.timing_device;
    version = r.version + 1;
    updated_at = backend.now;
    deleted_at = none;
  }

  abbrev pub deleted_solve : Solf → Solf
  deleted_solve r = record r {
    version = r.version + 1;
    updated_at = backend.now;
    deleted_at = some backend.now;
  }

  unfoldable pub insert_solve_statement : ℕ → SolveParams → Statement Raw Solf
  unfolding has_session
  insert_solve_statement user p db =
      if is_some (solve_of user p.id db)
      then (err unique_violation, db)
      else if has_session user p.session_id db.cube_sessions
      then (ok (new_solve user p), record db { solves = db.solves ++ new_solve user p ∷ [] })
      else (err foreign_key_violation, db)

  unfoldable pub insert_solve : ℕ → SolveParams → M Raw Solf
  insert_solve user p = exec backend Query.insert_solve (insert_solve_statement user p)

  -- The row found, if it is at the version and the next version is a bigint.
  unfoldable pub update_solve_row : ℕ → ℤ → (Solf → Solf) → Option Solf → Statement Raw Solf
  update_solve_row user version f none db = (err no_rows, db)
  update_solve_row user version f (some r) db =
      if eqb_ℤ (pos r.version) version
      then if ltb r.version max_int64
        then (ok (f r), record db { solves = update_where (is_solve user r.id) f db.solves })
        else (err failed, db)
      else (err no_rows, db)

  -- An update that writes a row checks the foreign key too.
  unfoldable pub check_session :
      ℕ → SolveParams → Db Raw → Result Solf × Db Raw → Result Solf × Db Raw
  unfolding has_session
  check_session user p before (ok r, db) =
      if has_session user p.session_id db.cube_sessions
      then (ok r, db)
      else (err foreign_key_violation, before)
  check_session user p before (err e, db) = (err e, before)

  unfoldable pub update_solve : ℕ → SolveParams → ℤ → M Raw Solf
  unfolding update_solve_row check_session
  update_solve user p version = exec backend Query.update_solve λ db.
      check_session user p db
        (update_solve_row user version (updated_solve p) (solve_of user p.id db) db)

  unfoldable pub delete_solve : ℕ → ℕ → ℤ → M Raw Solf
  unfolding update_solve_row
  delete_solve user id version =
      exec backend Query.delete_solve
        λ db. update_solve_row user version deleted_solve (solve_undeleted (solve_of user id db)) db
