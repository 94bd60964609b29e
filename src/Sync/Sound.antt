-- ===== src/Sync/Sound.antt =====
-- The invariant of the tables that synchronization relies on.
use cubesync.Prelude.{
  ℕ, ◌≤◌, ◌≡◌, refl, String, Bool, true, Option, none, some, List, arith, ℤ, pos, negsuc,
  update_where, any, if_both, is_some, All, All-append, All-imp, All-update_where, ap, ◌∙◌, ◌++◌,
  is_some-find-update_where, is_some-find-append, Bool-cases, inl, inr,
}
use cubesync.Store.{Db, CubeSession, Solf, Backend, Conn}
use cubesync.Store.Queries.{
  upsert_device_statement, update_device_ack_cursor_statement, append_change_statement,
  record_processed_mutation_statement, is_device, has_user, is_processed,
}
use cubesync.Store.Entities.{
  SessionParams, SolveParams, insert_session_statement, insert_solve_statement, has_session,
  session_of, solve_of, is_session, is_solve, updated_session, deleted_session, updated_solve,
  deleted_solve,
}
use cubesync.Sync.Models.{Request, Codec}
use cubesync.Sync.Service.{Service, sync}
use cubesync.Sync.Pages.Ascending.{Within, Within-append, Within-later}
use cubesync.Sync.Keeps.Closed.{Closed, Written}
use cubesync.Sync.Keeps.Requests.{sync-Keeps}

-- The session that the solve names is a session of the solve's user.
abbrev pub References : List CubeSession → Solf → Type 0
References sessions r = has_session r.user_id r.session_id sessions ≡ true

abbrev pub PositiveSession : CubeSession → Type 0
PositiveSession r = 1 ≤ r.version

abbrev pub PositiveSolve : Solf → Type 0
PositiveSolve r = 1 ≤ r.version

-- The log ascends up to the sequence, versions are positive, and the sessions of solves exist.
pub record IsSound {Raw : Type 0} (db : Db Raw) : Type 0 where
  pub ordered : Within 0 db.last_change_id db.change_log
  pub sessions : All PositiveSession db.cube_sessions
  pub solves : All PositiveSolve db.solves
  pub references : All (References db.cube_sessions) db.solves

-- A session that is found stays found.
pub has_session-update :
    (user : ℕ) (q : CubeSession → Bool) (f : CubeSession → CubeSession) (xs : List CubeSession)
    → ((u i : ℕ) (r : CubeSession) → is_session u i (f r) ≡ is_session u i r)
    → (s : Option ℕ) → has_session user s xs ≡ true
    → has_session user s (update_where q f xs) ≡ true
unfolding has_session
has_session-update user q f xs same none h = refl
has_session-update user q f xs same (some s) h =
    is_some-find-update_where (is_session user s) q f xs (λ x. same user s x) ∙ h

pub has_session-append :
    (user : ℕ) (xs ys : List CubeSession) (s : Option ℕ)
    → has_session user s xs ≡ true
    → has_session user s (xs ++ ys) ≡ true
unfolding has_session
has_session-append user xs ys none h = refl
has_session-append user xs ys (some s) h = is_some-find-append (is_session user s) xs ys h

module _ {Raw : Type 0} (backend : Backend Raw) (user : ℕ) where
  unseen_change :
      (db : Db Raw) (n : ℕ)
      → IsSound db
      → db.last_change_id ≤ n
      → IsSound (record db { last_change_id = n })
  unseen_change db n h le = record {
    ordered = Within-later 0 db.last_change_id n db.change_log le h.ordered;
    sessions = h.sessions;
    solves = h.solves;
    references = h.references;
  }

  device-IsSound :
      (id : ℕ) (name platform : String) (db : Db Raw)
      → IsSound db
      → IsSound (upsert_device_statement backend id user name platform db).1
  unfolding upsert_device_statement
  device-IsSound id name platform db h =
      if_both (Written IsSound) (any (is_device user id) db.devices)
        (record {
          ordered = h.ordered;
          sessions = h.sessions;
          solves = h.solves;
          references = h.references;
        })
        (if_both (Written IsSound) (has_user user db.users)
          (record {
            ordered = h.ordered;
            sessions = h.sessions;
            solves = h.solves;
            references = h.references;
          })
          h)

  ack-IsSound :
      (id : ℕ) (cursor : ℤ) (db : Db Raw)
      → IsSound db
      → IsSound (update_device_ack_cursor_statement backend user id cursor db).1
  unfolding update_device_ack_cursor_statement
  ack-IsSound id (negsuc n) db h = h
  ack-IsSound id (pos n) db h = record {
    ordered = h.ordered;
    sessions = h.sessions;
    solves = h.solves;
    references = h.references;
  }

  processed-IsSound :
      (device mutation : ℕ) (outcome : Raw) (db : Db Raw)
      → IsSound db
      → IsSound (record_processed_mutation_statement backend user device mutation outcome db).1
  unfolding record_processed_mutation_statement
  processed-IsSound device mutation outcome db h =
      if_both (Written IsSound) (any (is_processed user device mutation) db.processed_mutations) h (
        if_both (Written IsSound) (any (is_device user device) db.devices)
          (record {
            ordered = h.ordered;
            sessions = h.sessions;
            solves = h.solves;
            references = h.references;
          })
          h)

  change-IsSound :
      (entity_type : String) (entity_id : ℕ) (operation : String) (version : ℕ) (payload : Raw)
      (db : Db Raw)
      → IsSound db
      → IsSound
          (append_change_statement backend user entity_type entity_id operation version payload
            db).1
  unfolding append_change_statement
  change-IsSound x i y v p db h = record {
    ordered = Within-append 0 db.last_change_id db.change_log _ h.ordered refl;
    sessions = h.sessions;
    solves = h.solves;
    references = h.references;
  }

  -- A change of the sessions that keeps the sessions that are found.
  with_sessions :
      (db : Db Raw) (sessions : List CubeSession)
      → IsSound db
      → All PositiveSession sessions
      → ((u : ℕ) (s : Option ℕ)
          → has_session u s db.cube_sessions ≡ true
          → has_session u s sessions ≡ true)
      → IsSound (record db { cube_sessions = sessions })
  with_sessions db sessions h positive found = record {
    ordered = h.ordered;
    sessions = positive;
    solves = h.solves;
    references = All-imp db.solves (λ r. found r.user_id r.session_id) h.references;
  }

  new_session-IsSound :
      (p : SessionParams) (db : Db Raw)
      → IsSound db
      → IsSound (insert_session_statement backend user p db).1
  unfolding insert_session_statement
  new_session-IsSound p db h = if_both (Written IsSound) (is_some (session_of user p.id db)) h (
      with_sessions db _ h
        (All-append PositiveSession db.cube_sessions _ h.sessions (omega arith, tt))
        (λ u s. has_session-append u db.cube_sessions _ s))

  updated_sessions :
      (q : CubeSession → Bool) (f : CubeSession → CubeSession) (db : Db Raw)
      → IsSound db
      → ((u i : ℕ) (r : CubeSession) → is_session u i (f r) ≡ is_session u i r)
      → ((r : CubeSession) → PositiveSession r → PositiveSession (f r))
      → IsSound (record db { cube_sessions = update_where q f db.cube_sessions })
  updated_sessions q f db h same positive =
      with_sessions db _ h
        (All-update_where q f db.cube_sessions (λ x _ k. positive x k) h.sessions)
        (λ u s. has_session-update u q f db.cube_sessions same s)

  new_solve-IsSound :
      (p : SolveParams) (db : Db Raw)
      → IsSound db
      → IsSound (insert_solve_statement backend user p db).1
  unfolding insert_solve_statement
  new_solve-IsSound p db h =
      if_both (Written IsSound) (is_some (solve_of user p.id db)) h
        (elim (Bool-cases (has_session user p.session_id db.cube_sessions)) [
          | inr missing ↦ rw missing h
          | inl found ↦ rw found record {
            ordered = h.ordered;
            sessions = h.sessions;
            solves = All-append PositiveSolve db.solves _ h.solves (omega arith, tt);
            references =
                All-append (References db.cube_sessions) db.solves _ h.references (found, tt);
          }
        ])

  changed_solve-IsSound :
      (p : SolveParams) (r : Solf) (db : Db Raw)
      → IsSound db
      → has_session user p.session_id db.cube_sessions ≡ true
      → IsSound (record db {
        solves = update_where (is_solve user r.id) (updated_solve backend p) db.solves;
      })
  changed_solve-IsSound p r db h found = record {
    ordered = h.ordered;
    sessions = h.sessions;
    solves = All-update_where (is_solve user r.id) _ db.solves (λ x _ k. omega (arith, k)) h.solves;
    references =
        All-update_where (is_solve user r.id) _ db.solves
          (λ x e _. ap (λ u. has_session u p.session_id db.cube_sessions) (owner x e) ∙ found)
          h.references;
  }
    where
      owner : (x : Solf) → is_solve user r.id x ≡ true → x.user_id ≡ user
      owner x e = ground arith

  removed_solve-IsSound :
      (r : Solf) (db : Db Raw)
      → IsSound db
      → IsSound (record db {
        solves = update_where (is_solve user r.id) (deleted_solve backend) db.solves;
      })
  removed_solve-IsSound r db h = record {
    ordered = h.ordered;
    sessions = h.sessions;
    solves = All-update_where (is_solve user r.id) _ db.solves (λ x _ k. omega (arith, k)) h.solves;
    references = All-update_where (is_solve user r.id) _ db.solves (λ x _ k. k) h.references;
  }

  IsSound-Closed : Closed backend user IsSound
  IsSound-Closed = record {
    device = device-IsSound;
    ack = ack-IsSound;
    processed = processed-IsSound;
    entities = record {
      change = change-IsSound;
      new_session = new_session-IsSound;
      new_solve = new_solve-IsSound;
      changed_session = λ p r db h e.
          updated_sessions (is_session user r.id) (updated_session backend p) db h (λ u i x. refl)
            (λ x k. omega (arith, k));
      removed_session = λ id r db h e.
          updated_sessions (is_session user r.id) (deleted_session backend) db h (λ u i x. refl)
            (λ x k. omega (arith, k));
      changed_solve = λ p r db h e found. changed_solve-IsSound p r db h found;
      removed_solve = λ id r db h e. removed_solve-IsSound r db h;
    };
  }

-- A request, whether it succeeds or fails, keeps the tables sound: the ids of the change log
-- ascend strictly and none is beyond the sequence, every version is at least 1, and every solve
-- that names a session names one of its own user.
pub sync-IsSound :
    {Raw : Type 0} (s : Service) (codec : Codec Raw) (backend : Backend Raw) (user : ℕ)
    (req : Request Raw) (proto : ℕ) (c : Conn Raw)
    → IsSound c.db
    → IsSound (sync s codec backend user req proto c).1.db
sync-IsSound s codec backend user req proto c sound =
    (sync-Keeps s codec backend user IsSound (IsSound-Closed backend user)
        (unseen_change backend user) proto req).at
      c sound
