-- ===== src/Store/Bind.antt =====
-- What a statement does where nothing stops it, and a sequence of calls from what its first call
-- returns.
use cubesync.Prelude.{◌≡◌, false}
use cubesync.Store.Exec.{Error, ok, err, Conn, M, ◌>>=◌, Statement, Backend, Query, exec, settle}

module _ {Raw A B : Type 0} (m : M Raw A) (f : A → M Raw B) (c : Conn Raw) where
  pub bind_of_ok : {a : A} → (m c).0 ≡ ok a → (m >>= f) c ≡ f a (m c).1
  unfolding ◌>>=◌
  bind_of_ok h = rw h

  pub bind_of_err : {e : Error} → (m c).0 ≡ err e → (m >>= f) c ≡ (err e, (m c).1)
  unfolding ◌>>=◌
  bind_of_err h = rw h

pub exec_of_works :
    {Raw A : Type 0} (backend : Backend Raw) (q : Query) (statement : Statement Raw A)
    (c : Conn Raw)
    → c.aborted ≡ false
    → backend.fault q c.db ≡ false
    → exec backend q statement c ≡ settle c (statement c.db)
unfolding exec
exec_of_works backend q statement c live works = simp (live, works)
