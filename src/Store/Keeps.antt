-- ===== src/Store/Keeps.antt =====
-- Properties of the tables that calls keep: one rule for each way to build a call.
use cubesync.Prelude.{ℕ, ◌≤◌, Bool, true, false, if◌then◌else◌, arith, if_both}
use cubesync.Store.Tables.{Db}
use cubesync.Store.Exec.{
  Error, client_error, auth_error, no_rows, unique_violation, foreign_key_violation, failed, Result,
  ok, err, Query, Backend, Conn, M, Statement, pure, raise, settle, exec, optional, optional_result,
  ignore, ◌>>=◌, continue, commit, finish, transaction, rolled_back,
}

-- Whether the call returns or fails.
pub record Keeps {Raw A : Type 0} (P : Db Raw → Type 0) (m : M Raw A) : Type 0 where
  pub at : (c : Conn Raw) → P c.db → P (m c).1.db

-- The property, of the tables that a call leaves.
abbrev Leaves : {Raw A : Type 0} → (Db Raw → Type 0) → Result A × Conn Raw → Type 0
Leaves P r = P r.1.db

module _ {Raw A : Type 0} where
  settle-Keeps :
      (P : Db Raw → Type 0) (c : Conn Raw) (r : Result A × Db Raw)
      → P c.db
      → P r.1
      → P (settle c r).1.db
  unfolding settle
  settle-Keeps P c (ok a, db) h k = k
  settle-Keeps P c (err (client_error x y), db) h k = h
  settle-Keeps P c (err (auth_error x y), db) h k = h
  settle-Keeps P c (err no_rows, db) h k = h
  settle-Keeps P c (err unique_violation, db) h k = h
  settle-Keeps P c (err foreign_key_violation, db) h k = h
  settle-Keeps P c (err failed, db) h k = h

  optional_result-Keeps :
      (P : Db Raw → Type 0) (r : Result A × Conn Raw) → P r.1.db → P (optional_result r).1.db
  unfolding optional_result
  optional_result-Keeps P (ok a, c) h = h
  optional_result-Keeps P (err (client_error x y), c) h = h
  optional_result-Keeps P (err (auth_error x y), c) h = h
  optional_result-Keeps P (err no_rows, c) h = h
  optional_result-Keeps P (err unique_violation, c) h = h
  optional_result-Keeps P (err foreign_key_violation, c) h = h
  optional_result-Keeps P (err failed, c) h = h

  commit-Keeps :
      (P : Db Raw → Type 0) (backend : Backend Raw) (before : Conn Raw) (a : A) (c : Conn Raw)
      → P (rolled_back before c).db
      → P c.db
      → P (commit backend before a c).1.db
  unfolding commit
  commit-Keeps P backend before a c undone done = if_both (Leaves P) c.aborted undone (
      if_both (Leaves P) (backend.fault Query.commit_tx c.db) undone
        (if_both (Leaves P) (backend.fault Query.commit_reply c.db) done done))

  finish-Keeps :
      (P : Db Raw → Type 0) (backend : Backend Raw) (before : Conn Raw) (r : Result A × Conn Raw)
      → P (rolled_back before r.1).db
      → P r.1.db
      → P (finish backend before r).1.db
  unfolding finish
  finish-Keeps P backend before (ok a, c) undone done =
      commit-Keeps P backend before a c undone done
  finish-Keeps P backend before (err e, c) undone done = undone

module _ {Raw A : Type 0} {P : Db Raw → Type 0} where
  pub Keeps-pure : (a : A) → Keeps P (pure a)
  unfolding pure
  Keeps-pure a = record { at = λ c h. h }

  pub Keeps-raise : (e : Error) → Keeps P (raise {A = A} e)
  unfolding raise
  Keeps-raise e = record { at = λ c h. h }

  pub Keeps-if : (b : Bool) (m n : M Raw A) → Keeps P m → Keeps P n → Keeps P (if b then m else n)
  Keeps-if true m n km kn = km
  Keeps-if false m n km kn = kn

  -- A statement that fails, or is not run, changes no table.
  pub Keeps-exec :
      (backend : Backend Raw) (q : Query) (statement : Statement Raw A)
      → ((db : Db Raw) → P db → P (statement db).1)
      → Keeps P (exec backend q statement)
  unfolding exec
  Keeps-exec backend q statement k = record {
    at = λ c h. if_both (Leaves P) c.aborted h (
        if_both (Leaves P) (backend.fault q c.db) h
          (settle-Keeps P c (statement c.db) h (k c.db h)));
  }

  pub Keeps-optional : (m : M Raw A) → Keeps P m → Keeps P (optional m)
  unfolding optional
  Keeps-optional m km = record { at = λ c h. optional_result-Keeps P (m c) (km.at c h) }

  pub Keeps-ignore : (m : M Raw A) → Keeps P m → Keeps P (ignore m)
  unfolding ignore
  Keeps-ignore m km = record { at = λ c h. km.at c h }

module _ {Raw A B : Type 0} {P : Db Raw → Type 0} where
  continue-Keeps :
      (f : A → M Raw B) (r : Result A × Conn Raw)
      → ((a : A) → Keeps P (f a))
      → P r.1.db
      → P (continue f r).1.db
  unfolding continue
  continue-Keeps f (ok a, c) kf h = (kf a).at c h
  continue-Keeps f (err e, c) kf h = h

  pub Keeps-bind :
      (m : M Raw A) (f : A → M Raw B) → Keeps P m → ((a : A) → Keeps P (f a)) → Keeps P (m >>= f)
  unfolding ◌>>=◌
  Keeps-bind m f first then_f = record { at = λ c h. continue-Keeps f (m c) then_f (first.at c h) }

pub ruleset keeps_rules =
    (Keeps-pure, Keeps-raise, Keeps-if, Keeps-optional, Keeps-ignore, Keeps-bind)

-- The sequence is at least at `k`.
abbrev pub SequenceFrom : {Raw : Type 0} → ℕ → Db Raw → Type 0
SequenceFrom k db = k ≤ db.last_change_id

module _ {Raw A : Type 0} {P : Db Raw → Type 0} where
  -- A property that survives a rollback, where the sequence stays ahead.
  pub Keeps-transaction :
      (backend : Backend Raw) (body : M Raw A)
      → ((d : Db Raw) (n : ℕ) → P d → d.last_change_id ≤ n → P (record d { last_change_id = n }))
      → ((k : ℕ) → Keeps (SequenceFrom k) body)
      → Keeps P body
      → Keeps P (transaction backend body)
  unfolding transaction rolled_back
  Keeps-transaction backend body undo ahead kept = record {
    at = λ c h.
        let inside : Conn Raw = record { db = c.db; in_tx = true; aborted = false } in
        if_both (Leaves P) (backend.fault Query.begin_tx c.db) h (
          finish-Keeps P backend c (body inside)
            (undo c.db _ h ((ahead c.db.last_change_id).at inside (omega arith)))
            (kept.at inside h));
  }
