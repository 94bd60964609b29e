-- ===== src/Sync/Isolation.antt =====
-- One user's synchronization and the rows of the others.
use cubesync.Prelude.{
  ℕ, String, ◌≡◌, refl, ◌≢◌, ◌∙◌, List, arith, ◌==◌, ℤ, pos, negsuc, select, any,
  select-append_miss, select-update_where, if_both, is_some,
}
use cubesync.Store.{Db, Device, CubeSession, Solf, ProcessedMutation, ChangeLog, Backend, Conn}
use cubesync.Store.Queries.{
  upsert_device_statement, update_device_ack_cursor_statement, append_change_statement,
  record_processed_mutation_statement, is_device, has_user, is_processed, is_behind, acknowledged,
  seen_again, new_device,
}
use cubesync.Store.Entities.{
  SessionParams, SolveParams, is_session, is_solve, updated_session, deleted_session, updated_solve,
  deleted_solve, insert_session_statement, insert_solve_statement, has_session, session_of,
  solve_of,
}
use cubesync.Sync.Models.{Request, Codec}
use cubesync.Sync.Service.{Service, sync}
use cubesync.Sync.Keeps.Closed.{Closed, Written}
use cubesync.Sync.Keeps.Requests.{sync-Keeps}

-- A user's rows in the five tables of synchronization, in their order.
pub record Rows (Raw : Type 0) : Type 0 where
  pub devices : List Device
  pub sessions : List CubeSession
  pub solves : List Solf
  pub processed : List (ProcessedMutation Raw)
  pub changes : List (ChangeLog Raw)

module _ {Raw : Type 0} where
  abbrev pub rows_of : ℕ → Db Raw → Rows Raw
  rows_of t db = record {
    devices = select (λ d. d.user_id == t) db.devices;
    sessions = select (λ r. r.user_id == t) db.cube_sessions;
    solves = select (λ r. r.user_id == t) db.solves;
    processed = select (λ p. p.user_id == t) db.processed_mutations;
    changes = select (λ r. r.user_id == t) db.change_log;
  }

  -- The rows of `t` are `o`.
  pub record HasRows (t : ℕ) (o : Rows Raw) (db : Db Raw) : Type 0 where
    pub devices : select (λ d. d.user_id == t) db.devices ≡ o.devices
    pub sessions : select (λ r. r.user_id == t) db.cube_sessions ≡ o.sessions
    pub solves : select (λ r. r.user_id == t) db.solves ≡ o.solves
    pub processed : select (λ p. p.user_id == t) db.processed_mutations ≡ o.processed
    pub changes : select (λ r. r.user_id == t) db.change_log ≡ o.changes

HasRows-eq : {Raw : Type 0} {t : ℕ} {o : Rows Raw} {db : Db Raw} → HasRows t o db → rows_of t db ≡ o
HasRows-eq h = λ i. record {
  devices = h.devices i;
  sessions = h.sessions i;
  solves = h.solves i;
  processed = h.processed i;
  changes = h.changes i;
}

module _ {Raw : Type 0} (backend : Backend Raw) (user t : ℕ) (other : user ≢ t) (o : Rows Raw) where
  device-HasRows :
      (id : ℕ) (name platform : String) (db : Db Raw)
      → HasRows t o db
      → HasRows t o (upsert_device_statement backend id user name platform db).1
  unfolding upsert_device_statement
  device-HasRows id name platform db h =
      if_both (Written (HasRows t o)) (any (is_device user id) db.devices)
        (record {
          devices =
              select-update_where _ (is_device user id) (seen_again backend name platform)
                db.devices (λ d e. ground arith)
              ∙ h.devices;
          sessions = h.sessions;
          solves = h.solves;
          processed = h.processed;
          changes = h.changes;
        })
        (if_both (Written (HasRows t o)) (has_user user db.users)
          (record {
            devices =
                select-append_miss _ db.devices (new_device backend id user name platform)
                  (ground arith)
                ∙ h.devices;
            sessions = h.sessions;
            solves = h.solves;
            processed = h.processed;
            changes = h.changes;
          })
          h)

  ack-HasRows :
      (id : ℕ) (cursor : ℤ) (db : Db Raw)
      → HasRows t o db
      → HasRows t o (update_device_ack_cursor_statement backend user id cursor db).1
  unfolding update_device_ack_cursor_statement
  ack-HasRows id (negsuc n) db h = h
  ack-HasRows id (pos n) db h = (record {
    devices =
        select-update_where _ (is_behind user id n) (acknowledged n) db.devices
          (λ d e. ground arith)
        ∙ h.devices;
    sessions = h.sessions;
    solves = h.solves;
    processed = h.processed;
    changes = h.changes;
  })

  processed-HasRows :
      (device mutation : ℕ) (outcome : Raw) (db : Db Raw)
      → HasRows t o db
      → HasRows t o (record_processed_mutation_statement backend user device mutation outcome db).1
  unfolding record_processed_mutation_statement
  processed-HasRows device mutation outcome db h =
      if_both (Written (HasRows t o))
        (any (is_processed user device mutation) db.processed_mutations) h
        (if_both (Written (HasRows t o)) (any (is_device user device) db.devices)
          (record {
            devices = h.devices;
            sessions = h.sessions;
            solves = h.solves;
            processed = select-append_miss _ db.processed_mutations _ (ground arith) ∙ h.processed;
            changes = h.changes;
          })
          h)

  change-HasRows :
      (entity_type : String) (entity_id : ℕ) (operation : String) (version : ℕ) (payload : Raw)
      (db : Db Raw)
      → HasRows t o db
      → HasRows t o
          (append_change_statement backend user entity_type entity_id operation version payload
            db).1
  unfolding append_change_statement
  change-HasRows x i y v p db h = (record {
    devices = h.devices;
    sessions = h.sessions;
    solves = h.solves;
    processed = h.processed;
    changes = select-append_miss _ db.change_log _ (ground arith) ∙ h.changes;
  })

  new_session-HasRows :
      (p : SessionParams) (db : Db Raw)
      → HasRows t o db
      → HasRows t o (insert_session_statement backend user p db).1
  unfolding insert_session_statement
  new_session-HasRows p db h =
      if_both (Written (HasRows t o)) (is_some (session_of user p.id db)) h (record {
        devices = h.devices;
        sessions = select-append_miss _ db.cube_sessions _ (ground arith) ∙ h.sessions;
        solves = h.solves;
        processed = h.processed;
        changes = h.changes;
      })

  new_solve-HasRows :
      (p : SolveParams) (db : Db Raw)
      → HasRows t o db
      → HasRows t o (insert_solve_statement backend user p db).1
  unfolding insert_solve_statement
  new_solve-HasRows p db h = if_both (Written (HasRows t o)) (is_some (solve_of user p.id db)) h (
      if_both (Written (HasRows t o)) (has_session user p.session_id db.cube_sessions)
        (record {
          devices = h.devices;
          sessions = h.sessions;
          solves = select-append_miss _ db.solves _ (ground arith) ∙ h.solves;
          processed = h.processed;
          changes = h.changes;
        })
        h)

  HasRows-Closed : Closed backend user (HasRows t o)
  HasRows-Closed = record {
    device = device-HasRows;
    ack = ack-HasRows;
    processed = processed-HasRows;
    entities = record {
      change = change-HasRows;
      new_session = new_session-HasRows;
      new_solve = new_solve-HasRows;
      changed_session = λ p r db h e. (record {
        devices = h.devices;
        sessions =
            select-update_where _ (is_session user r.id) (updated_session backend p)
              db.cube_sessions (λ d e. ground arith)
            ∙ h.sessions;
        solves = h.solves;
        processed = h.processed;
        changes = h.changes;
      });
      removed_session = λ id r db h e. (record {
        devices = h.devices;
        sessions =
            select-update_where _ (is_session user r.id) (deleted_session backend) db.cube_sessions
              (λ d e. ground arith)
            ∙ h.sessions;
        solves = h.solves;
        processed = h.processed;
        changes = h.changes;
      });
      changed_solve = λ p r db h e found. (record {
        devices = h.devices;
        sessions = h.sessions;
        solves =
            select-update_where _ (is_solve user r.id) (updated_solve backend p) db.solves
              (λ d e. ground arith)
            ∙ h.solves;
        processed = h.processed;
        changes = h.changes;
      });
      removed_solve = λ id r db h e. (record {
        devices = h.devices;
        sessions = h.sessions;
        solves =
            select-update_where _ (is_solve user r.id) (deleted_solve backend) db.solves
              (λ d e. ground arith)
            ∙ h.solves;
        processed = h.processed;
        changes = h.changes;
      });
    };
  }

-- A request of one user, whether it succeeds or fails, leaves every row of every other user as it
-- was in the tables of synchronization: the devices, the sessions, the solves, the stored outcomes
-- and the log.
pub sync-isolated :
    {Raw : Type 0} (s : Service) (codec : Codec Raw) (backend : Backend Raw) (user t : ℕ)
    (req : Request Raw) (proto : ℕ) (c : Conn Raw)
    → user ≢ t
    → rows_of t (sync s codec backend user req proto c).1.db ≡ rows_of t c.db
sync-isolated s codec backend user t req proto c other = HasRows-eq (
    (sync-Keeps s codec backend user (HasRows t (rows_of t c.db))
        (HasRows-Closed backend user t other (rows_of t c.db))
        (λ d n h le. (record {
          devices = h.devices;
          sessions = h.sessions;
          solves = h.solves;
          processed = h.processed;
          changes = h.changes;
        }))
        proto req).at
      c
      (record { devices = refl; sessions = refl; solves = refl; processed = refl; changes = refl }))
