-- ===== src/Store/Returns.antt =====
-- What holds of the tables and the result when a call returns without an error: one rule for each
-- way to build a call.
use cubesync.Prelude.{◌≡◌, refl, sym, Bool, true, false, Option, none, some, if◌then◌else◌, if_both}
use cubesync.Store.Tables.{Db}
use cubesync.Store.Exec.{
  Error, client_error, auth_error, no_rows, unique_violation, foreign_key_violation, failed, Result,
  ok, err, Query, Backend, Conn, M, Statement, pure, raise, settle, exec, optional, optional_result,
  ◌>>=◌, continue, commit, finish, transaction,
}
use cubesync.Store.Entities.{row_or_none}

-- A property of the value and of the tables, where there is a value.
abbrev pub OnOk : {Raw A : Type 0} → (A → Db Raw → Type 0) → Result A × Conn Raw → Type 0
OnOk Q (ok a, c) = Q a c.db
OnOk Q (err e, c) = Unit

abbrev pub OnRow : {Raw A : Type 0} → (A → Db Raw → Type 0) → Result A × Db Raw → Type 0
OnRow Q (ok a, db) = Q a db
OnRow Q (err e, db) = Unit

pub record Returns {Raw A : Type 0} (P : Db Raw → Type 0) (m : M Raw A) (Q : A → Db Raw → Type 0)
    : Type 0 where
  pub at : (c : Conn Raw) → P c.db → OnOk Q (m c)

ok_inj : {A : Type 0} (a b : A) → ok a ≡ ok b → a ≡ b
ok_inj a b e = cc e

module _ {Raw A : Type 0} (Q : A → Db Raw → Type 0) where
  OnOk-of : (r : Result A × Conn Raw) (a : A) → r.0 ≡ ok a → OnOk Q r → Q a r.1.db
  OnOk-of (ok b, c) a e h = rw (sym (ok_inj b a e)) h
  OnOk-of (err x, c) a e h = absurd (cc e)

  settle-OnOk : (c : Conn Raw) (r : Result A × Db Raw) → OnRow Q r → OnOk Q (settle c r)
  unfolding settle
  settle-OnOk c (ok a, db) h = h
  settle-OnOk c (err (client_error x y), db) h = tt
  settle-OnOk c (err (auth_error x y), db) h = tt
  settle-OnOk c (err no_rows, db) h = tt
  settle-OnOk c (err unique_violation, db) h = tt
  settle-OnOk c (err foreign_key_violation, db) h = tt
  settle-OnOk c (err failed, db) h = tt

  finish-OnOk :
      (backend : Backend Raw) (before : Conn Raw) (r : Result A × Conn Raw)
      → OnOk Q r
      → OnOk Q (finish backend before r)
  unfolding finish commit
  finish-OnOk backend before (err e, c) h = tt
  finish-OnOk backend before (ok a, c) h = if_both (OnOk Q) c.aborted tt (
      if_both (OnOk Q) (backend.fault Query.commit_tx c.db) tt
        (if_both (OnOk Q) (backend.fault Query.commit_reply c.db) tt h))

module _ {Raw A : Type 0} {P : Db Raw → Type 0} {Q : A → Db Raw → Type 0} where
  pub Returns-of :
      (m : M Raw A) (c : Conn Raw) (a : A)
      → Returns P m Q
      → P c.db
      → (m c).0 ≡ ok a
      → Q a (m c).1.db
  Returns-of m c a r h e = OnOk-of Q (m c) a e (r.at c h)

  pub Returns-pure : (a : A) → ((db : Db Raw) → P db → Q a db) → Returns P (pure a) Q
  unfolding pure
  Returns-pure a k = record { at = λ c h. k c.db h }

  pub Returns-raise : (e : Error) → Returns P (raise e) Q
  unfolding raise
  Returns-raise e = record { at = λ c h. tt }

  pub Returns-if :
      (b : Bool) (m n : M Raw A)
      → (b ≡ true → Returns P m Q)
      → (b ≡ false → Returns P n Q)
      → Returns P (if b then m else n) Q
  Returns-if true m n km kn = km refl
  Returns-if false m n km kn = kn refl

  pub Returns-exec :
      (backend : Backend Raw) (q : Query) (statement : Statement Raw A)
      → ((db : Db Raw) → P db → OnRow Q (statement db))
      → Returns P (exec backend q statement) Q
  unfolding exec
  Returns-exec backend q statement k = record {
    at = λ c h.
        if_both (OnOk Q) c.aborted tt (
          if_both (OnOk Q) (backend.fault q c.db) tt (settle-OnOk Q c (statement c.db) (k c.db h)));
  }

  pub Returns-transaction :
      (backend : Backend Raw) (body : M Raw A)
      → Returns P body Q
      → Returns P (transaction backend body) Q
  unfolding transaction
  Returns-transaction backend body r = record {
    at = λ c h.
        if_both (OnOk Q) (backend.fault Query.begin_tx c.db) tt (
          finish-OnOk Q backend c _ (r.at (record { db = c.db; in_tx = true; aborted = false }) h));
  }

module _ {Raw A : Type 0} {P : Db Raw → Type 0} where
  -- A query that changes no table.
  pub Returns-look :
      {Q : A → Db Raw → Type 0} (backend : Backend Raw) (q : Query) (look : Db Raw → Option A)
      → ((db : Db Raw) (a : A) → P db → look db ≡ some a → Q a db)
      → Returns P (exec backend q λ db. row_or_none (look db) db) Q
  unfolding row_or_none
  Returns-look {Q} backend q look k =
      Returns-exec backend q _ (λ db h. found db (look db) (λ a e. k db a h e))
    where
      found :
          (db : Db Raw) (o : Option A)
          → ((a : A) → o ≡ some a → Q a db)
          → OnRow Q (row_or_none o db)
      found db none k = tt
      found db (some a) k = k a refl

  pub Returns-optional_look :
      {Q : Option A → Db Raw → Type 0} (backend : Backend Raw) (q : Query)
      (look : Db Raw → Option A)
      → ((db : Db Raw) → P db → Q (look db) db)
      → Returns P (optional (exec backend q λ db. row_or_none (look db) db)) Q
  unfolding exec optional optional_result row_or_none settle
  Returns-optional_look {Q} backend q look k = record {
    at = λ c h. ends c c.aborted (backend.fault q c.db) (look c.db) (k c.db h);
  }
    where
      ends :
          (c : Conn Raw) (aborted fails : Bool) (o : Option A)
          → Q o c.db
          → OnOk Q (
              optional_result (
                if aborted
                then (err failed, c)
                else if fails
                then (err failed, record c { aborted = c.in_tx })
                else settle c (row_or_none o c.db)))
      ends c true fails o h = tt
      ends c false true o h = tt
      ends c false false none h = h
      ends c false false (some a) h = h

module _ {Raw A B : Type 0} {Q : A → Db Raw → Type 0} {R : B → Db Raw → Type 0} where
  continue-OnOk :
      (f : A → M Raw B) (r : Result A × Conn Raw)
      → ((a : A) → Returns (Q a) (f a) R)
      → OnOk Q r
      → OnOk R (continue f r)
  unfolding continue
  continue-OnOk f (ok a, c) k h = (k a).at c h
  continue-OnOk f (err e, c) k h = tt

  pub Returns-bind :
      {P : Db Raw → Type 0} (m : M Raw A) (f : A → M Raw B)
      → Returns P m Q
      → ((a : A) → Returns (Q a) (f a) R)
      → Returns P (m >>= f) R
  unfolding ◌>>=◌
  Returns-bind m f first then_f = record { at = λ c h. continue-OnOk f (m c) then_f (first.at c h) }

module _ {Raw A : Type 0} {P : Db Raw → Type 0} {Q : A → Db Raw → Type 0} {m : M Raw A} where
  -- A fact that does not depend on the tables.
  pub Returns-given : {F : Type 0} → Returns P m Q → Returns (λ db. F × P db) m (λ a db. F × Q a db)
  Returns-given {F} r = record { at = λ c h. both (m c) h.0 (r.at c h.1) }
    where
      both : (r : Result A × Conn Raw) → F → OnOk Q r → OnOk (λ a db. F × Q a db) r
      both (ok a, c) f h = (f, h)
      both (err e, c) f h = tt

  -- A fact that the proof of the call may use.
  pub Returns-assume : {F : Type 0} → (F → Returns P m Q) → Returns (λ db. F × P db) m Q
  Returns-assume k = record { at = λ c h. (k h.0).at c h.1 }

  -- Stronger before, weaker after.
  pub Returns-weaken :
      {P' : Db Raw → Type 0} {Q' : A → Db Raw → Type 0}
      → ((db : Db Raw) → P' db → P db)
      → ((a : A) (db : Db Raw) → Q a db → Q' a db)
      → Returns P m Q
      → Returns P' m Q'
  Returns-weaken {P'} {Q'} before after r = record {
    at = λ c h. weaker (m c) (r.at c (before c.db h));
  }
    where
      weaker : (r : Result A × Conn Raw) → OnOk Q r → OnOk Q' r
      weaker (ok a, c) h = after a c.db h
      weaker (err e, c) h = tt

module _ {Raw A : Type 0} {P : Db Raw → Type 0} where
  pub Returns-any : (m : M Raw A) → Returns P m (λ _ _. Unit)
  Returns-any m = record { at = λ c h. nothing (m c) }
    where
      nothing : (r : Result A × Conn Raw) → OnOk (λ _ _. Unit) r
      nothing (ok a, c) = tt
      nothing (err e, c) = tt
