-- ===== src/Store/Keyset.antt =====
-- internal/store/db/snapshot.sql.go, and LatestChangeCursor of sync.sql.go: a user's rows in the
-- order of their ids, from an id on, and the last id of the log.
use cubesync.Prelude.{
  ℕ, ◌&&◌, List, [], ◌∷◌, ltb, leb, ◌==◌, if◌then◌else◌, select, take, ℤ, pos, negsuc,
}
use cubesync.Store.Tables.{CubeSession, Solf, ChangeLog}
use cubesync.Store.Exec.{ok, err, failed, Query, Backend, M, Statement, exec}

module _ {A : Type 0} (id_of : A → ℕ) where
  unfoldable pub insert_by_id : A → List A → List A
  insert_by_id x [] = x ∷ []
  insert_by_id x (y ∷ ys) =
      let rest = insert_by_id x ys in if leb (id_of x) (id_of y) then x ∷ y ∷ ys else y ∷ rest

  -- ORDER BY id
  unfoldable pub order_by_id : List A → List A
  order_by_id [] = []
  order_by_id (x ∷ xs) = insert_by_id x (order_by_id xs)

-- WHERE user_id = $1 AND id > $2
abbrev pub sessions_after : ℕ → ℕ → List CubeSession → List CubeSession
sessions_after user after = select (λ r. r.user_id == user && ltb after r.id)

abbrev pub solves_after : ℕ → ℕ → List Solf → List Solf
solves_after user after = select (λ r. r.user_id == user && ltb after r.id)

module _ {Raw : Type 0} where
  abbrev pub last_change : ℕ → ℕ → List (ChangeLog Raw) → ℕ
  last_change user m [] = m
  last_change user m (r ∷ rs) =
      last_change user (if r.user_id == user && ltb m r.change_id then r.change_id else m) rs

  -- PostgreSQL refuses a negative LIMIT.
  unfoldable pub limited : {A : Type 0} → ℤ → List A → Statement Raw (List A)
  limited (pos n) rows db = (ok (take n rows), db)
  limited (negsuc n) rows db = (err failed, db)

module _ {Raw : Type 0} (backend : Backend Raw) where
  unfoldable pub snapshot_sessions_keyset : ℕ → ℕ → ℤ → M Raw (List CubeSession)
  unfolding order_by_id limited
  snapshot_sessions_keyset user after limit =
      exec backend Query.snapshot_sessions λ db.
        limited limit (order_by_id (λ r. r.id) (sessions_after user after db.cube_sessions)) db

  unfoldable pub snapshot_solves_keyset : ℕ → ℕ → ℤ → M Raw (List Solf)
  unfolding order_by_id limited
  snapshot_solves_keyset user after limit =
      exec backend Query.snapshot_solves
        λ db. limited limit (order_by_id (λ r. r.id) (solves_after user after db.solves)) db

  unfoldable pub latest_change_cursor : ℕ → M Raw ℕ
  latest_change_cursor user =
      exec backend Query.latest_change_cursor (λ db. (ok (last_change user 0 db.change_log), db))
