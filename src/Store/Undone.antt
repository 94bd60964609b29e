-- ===== src/Store/Undone.antt =====
-- A call that fails and leaves the tables as they were.
use cubesync.Prelude.{ℕ, ◌≡◌, ◌≢◌, refl, sym, ap, ◌∙◌, true, false, if_both}
use cubesync.Store.Tables.{Db}
use cubesync.Store.Exec.{
  Error, Result, ok, err, Query, Conn, Backend, M, raise, ◌>>=◌, continue, rolled_back, commit,
  finish, transaction,
}
use cubesync.Store.Keeps.{Keeps}

-- Where the call has failed, it leaves every table as it was; the sequence may have moved.
abbrev pub Undone : {Raw A : Type 0} → Db Raw → Result A × Conn Raw → Type 0
Undone before r =
    (e : Error) → r.0 ≡ err e → r.1.db ≡ record before { last_change_id = r.1.db.last_change_id }

-- The tables with another sequence.
abbrev at_sequence : {Raw : Type 0} → ℕ → Db Raw → Db Raw
at_sequence n db = record db { last_change_id = n }

module _ {Raw A : Type 0} (backend : Backend Raw)
    (replied : (db : Db Raw) → backend.fault Query.commit_reply db ≡ false) where
  finish-Undone :
      (before : Conn Raw) (r : Result A × Conn Raw) → Undone before.db (finish backend before r)
  unfolding finish commit rolled_back
  finish-Undone before (err x, c) = λ e h. refl
  finish-Undone before (ok a, c) =
      if_both (Undone before.db) c.aborted (λ e h. refl)
        (if_both (Undone before.db) (backend.fault Query.commit_tx c.db) (λ e h. refl)
          (rw (replied c.db) (λ e h. absurd (cc h))))

  pub transaction-Undone :
      (body : M Raw A) (c : Conn Raw) → Undone c.db (transaction backend body c)
  unfolding transaction
  transaction-Undone body c =
      if_both (Undone c.db) (backend.fault Query.begin_tx c.db) (λ e h. refl)
        (finish-Undone c (body (record { db = c.db; in_tx = true; aborted = false })))

module _ {Raw A B : Type 0} where
  -- A first call that changes no table.
  pub bind-Undone :
      (m : M Raw A) (f : A → M Raw B) (c : Conn Raw)
      → (m c).1.db ≡ c.db
      → ((a : A) (d : Conn Raw) → Undone d.db (f a d))
      → Undone c.db ((m >>= f) c)
  unfolding ◌>>=◌
  bind-Undone m f c same rest = after (m c) same
    where
      after : (r : Result A × Conn Raw) → r.1.db ≡ c.db → Undone c.db (continue f r)
      after (err x, d) e = λ y h. e ∙ sym (ap (λ b. at_sequence b.last_change_id c.db) e)
      after (ok a, d) e = λ y h. rest a d y h ∙ ap (at_sequence (f a d).1.db.last_change_id) e

  -- A first call that keeps the tables, whatever they are.
  pub bind_same-Undone :
      (m : M Raw A) (f : A → M Raw B) (c : Conn Raw)
      → ((before : Db Raw) → Keeps (λ db. db ≡ before) m)
      → ((a : A) (d : Conn Raw) → Undone d.db (f a d))
      → Undone c.db ((m >>= f) c)
  bind_same-Undone m f c same rest = bind-Undone m f c ((same c.db).at c refl) rest

module _ {Raw A : Type 0} where
  pub raise-Undone : (x : Error) (c : Conn Raw) → Undone c.db (raise {A = A} x c)
  unfolding raise
  raise-Undone x c = λ e h. refl

module _ {Raw A B : Type 0} where
  -- A last call that does not fail.
  pub bind_last-Undone :
      (m : M Raw A) (f : A → M Raw B) (c : Conn Raw)
      → Undone c.db (m c)
      → ((a : A) (d : Conn Raw) (e : Error) → (f a d).0 ≢ err e)
      → Undone c.db ((m >>= f) c)
  unfolding ◌>>=◌
  bind_last-Undone m f c undone total = after (m c) undone
    where
      after : (r : Result A × Conn Raw) → Undone c.db r → Undone c.db (continue f r)
      after (err x, d) u = λ y h. u x refl
      after (ok a, d) u = λ y h. absurd (total a d y h)
