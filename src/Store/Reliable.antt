-- ===== src/Store/Reliable.antt =====
-- Calls where no statement and no commit fails of itself.
use cubesync.Prelude.{◌≡◌, refl, true, false, Option, none, some}
use cubesync.Store.Tables.{Db}
use cubesync.Store.Exec.{
  Error, ok, err, Query, Backend, Conn, M, Statement, settle, exec, optional, optional_result,
  commit, finish, rolled_back, transaction,
}
use cubesync.Store.Entities.{row_or_none}

pub record IsReliable {Raw : Type 0} (backend : Backend Raw) : Type 0 where
  pub works : (q : Query) (db : Db Raw) → backend.fault q db ≡ false

-- A transaction as it begins.
abbrev pub begun : {Raw : Type 0} → Db Raw → Conn Raw
begun db = record { db = db; in_tx = true; aborted = false }

module _ {Raw A : Type 0} (backend : Backend Raw) (reliable : IsReliable backend) where
  pub exec_reliable :
      (q : Query) (statement : Statement Raw A) (c : Conn Raw)
      → c.aborted ≡ false
      → exec backend q statement c ≡ settle c (statement c.db)
  unfolding exec
  exec_reliable q statement c live = simp (live, reliable.works q c.db)

  -- A query that returns a row or none, where the caller handles both.
  pub look_reliable :
      (q : Query) (look : Db Raw → Option A) (c : Conn Raw) (o : Option A)
      → c.aborted ≡ false
      → look c.db ≡ o
      → optional (exec backend q λ db. row_or_none (look db) db) c ≡ (ok o, c)
  unfolding optional exec optional_result settle row_or_none
  look_reliable q look c o live e = simp (live, reliable.works q c.db, e) (found o)
    where
      found : (o : Option A) → optional_result (settle c (row_or_none o c.db)) ≡ (ok o, c)
      found none = refl
      found (some a) = refl

  pub transaction_reliable-ok :
      (body : M Raw A) (c : Conn Raw) (a : A) (d : Conn Raw)
      → body (begun c.db) ≡ (ok a, d)
      → d.aborted ≡ false
      → transaction backend body c ≡ (ok a, record c { db = d.db })
  unfolding transaction finish commit
  transaction_reliable-ok body c a d e live = simp (
    reliable.works Query.begin_tx c.db,
    e,
    live,
    reliable.works Query.commit_tx d.db,
    reliable.works Query.commit_reply d.db,
  )

  pub transaction_reliable-err :
      (body : M Raw A) (c : Conn Raw) (x : Error) (d : Conn Raw)
      → body (begun c.db) ≡ (err x, d)
      → transaction backend body c ≡ (err x, rolled_back c d)
  unfolding transaction finish
  transaction_reliable-err body c x d e = simp (reliable.works Query.begin_tx c.db, e)
