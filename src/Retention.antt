-- ===== src/Retention.antt =====
-- internal/sync/retention.go: runOnce of RetentionService, and the statements that it runs.
-- The ticker that calls it, and the log lines, are left out.
pub mod Safety
pub mod Tests
use cubesync.Prelude.{
  ℕ, ◌-◌, Bool, true, false, Option, none, some, List, [], ◌∷◌, ◌==◌, if◌then◌else◌, any, ℤ,
}
use cubesync.Store.{
  ChangeLog, Result, ok, err, Conn, Query, Backend, M, pure, exec, ignore, ◌>>=◌, ◌>>◌,
}
use cubesync.Store.Queries.{min_valid_cursor, prune_change_log, prune_processed_mutations}
use cubesync.Sync.Service.{effective_inactive_window}

module _ {Raw : Type 0} where
  -- The users that have a change, each once.
  unfoldable pub users_with_changes : List ℕ → List (ChangeLog Raw) → List ℕ
  users_with_changes known [] = []
  users_with_changes known (r ∷ rs) =
      let rest = users_with_changes known rs in
      let more = users_with_changes (r.user_id ∷ known) rs in
      if any (λ u. u == r.user_id) known then rest else r.user_id ∷ more

  unfoldable pub attempt_result : {A : Type 0} → Result A × Conn Raw → Result (Option A) × Conn Raw
  attempt_result (ok a, c) = (ok (some a), c)
  attempt_result (err e, c) = (ok none, c)

  -- A call whose error is logged, and the loop goes on.
  unfoldable pub attempt : {A : Type 0} → M Raw A → M Raw (Option A)
  unfolding attempt_result
  attempt m c = attempt_result (m c)

module _ {Raw : Type 0} (backend : Backend Raw) where
  unfoldable pub list_users_with_changes : M Raw (List ℕ)
  unfolding users_with_changes
  list_users_with_changes =
      exec backend Query.list_users_with_changes
        λ db. (ok (users_with_changes [] db.change_log), db)

  -- The body of the loop, after the minimum is known.
  unfoldable pub prune_below : ℕ → ℕ → Option ℕ → M Raw (Unit {0})
  prune_below cutoff user none = pure tt
  prune_below cutoff user (some least) =
      if least == 0
      then pure tt
      else ignore (prune_change_log backend user least)
        >> ignore (prune_processed_mutations backend user cutoff)

  unfoldable pub prune_user : ℕ → ℕ → M Raw (Unit {0})
  prune_user cutoff user =
      attempt (min_valid_cursor backend user cutoff) >>= prune_below cutoff user

  unfoldable pub prune_users : ℕ → List ℕ → M Raw (Unit {0})
  prune_users cutoff [] = pure tt
  prune_users cutoff (user ∷ users) = prune_user cutoff user >> prune_users cutoff users

  unfoldable pub prune_listed : ℕ → Option (List ℕ) → M Raw (Unit {0})
  prune_listed cutoff none = pure tt
  prune_listed cutoff (some users) = prune_users cutoff users

  unfoldable pub run_once : ℤ → M Raw (Unit {0})
  run_once window =
      attempt list_users_with_changes
      >>= prune_listed (backend.now - effective_inactive_window window)
