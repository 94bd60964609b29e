-- ===== src/Sync/Keeps/Solves.antt =====
-- applySolve keeps what its statements keep.
use cubesync.Prelude.{ℕ, String, Option, none, some}
use cubesync.Store.{
  Db, Solf, client_error, auth_error, unique_violation, no_rows, foreign_key_violation, failed,
  Result, ok, err, Backend, Conn, M,
}
use cubesync.Store.Keeps.{Keeps, keeps_rules}
use cubesync.Sync.Models.{Mutation, Solve, Codec}
use cubesync.Sync.Convert.{append_solve_change}
use cubesync.Sync.Solves.{
  solve_deleted, delete_current_solve, apply_solve_delete, solve_upserted, solve_written,
  foreign_key_rejected, write_solve, checked_solve, apply_solve_upsert, apply_valid_solve,
  apply_solve,
}
use cubesync.Sync.Keeps.Closed.{EntityClosed}
use cubesync.Sync.Keeps.Entities.{
  append_change-Keeps, get_solve-Keeps, insert_solve-Keeps, update_solve-Keeps, delete_solve-Keeps,
}
use cubesync.Sync.Keeps.Sessions.{or_fail-Keeps, or_outcome-Keeps}

module _ {Raw : Type 0} (codec : Codec Raw) (backend : Backend Raw) (user : ℕ) (P : Db Raw → Type 0)
    (closed : EntityClosed backend user P) where
  append_solve_change-Keeps :
      (operation : String) (row : Solf)
      → Keeps P (append_solve_change codec backend user operation row)
  unfolding append_solve_change
  append_solve_change-Keeps operation row =
      search (keeps_rules, or_fail-Keeps, append_change-Keeps backend user P closed)

  module _ (m : Mutation Raw) (proto : ℕ) where
    solve_deleted-Keeps :
        (current : Solf) (o : Option Solf)
        → Keeps P (solve_deleted codec backend user m proto current o)
    unfolding solve_deleted
    solve_deleted-Keeps current none = search keeps_rules
    solve_deleted-Keeps current (some row) = search (keeps_rules, append_solve_change-Keeps)

    delete_current_solve-Keeps :
        (current : Solf) (o : Option ℕ)
        → Keeps P (delete_current_solve codec backend user m proto current o)
    unfolding delete_current_solve
    delete_current_solve-Keeps current none =
        search (keeps_rules, delete_solve-Keeps backend user P closed, solve_deleted-Keeps)
    delete_current_solve-Keeps current (some t) = search keeps_rules

    apply_solve_delete-Keeps :
        (o : Option Solf) → Keeps P (apply_solve_delete codec backend user m proto o)
    unfolding apply_solve_delete
    apply_solve_delete-Keeps none = search keeps_rules
    apply_solve_delete-Keeps (some current) = search (keeps_rules, delete_current_solve-Keeps)

    solve_upserted-Keeps : (row : Solf) → Keeps P (solve_upserted codec backend user m proto row)
    unfolding solve_upserted
    solve_upserted-Keeps row = search (keeps_rules, append_solve_change-Keeps)

    solve_written-Keeps :
        (r : Result Solf × Conn Raw)
        → P r.1.db
        → P (solve_written codec backend user m proto r).1.db
    unfolding solve_written
    solve_written-Keeps (ok row, c) h = (solve_upserted-Keeps row).at c h
    solve_written-Keeps (err foreign_key_violation, c) h = h
    solve_written-Keeps (err no_rows, c) h = h
    solve_written-Keeps (err unique_violation, c) h = h
    solve_written-Keeps (err (auth_error x y), c) h = h
    solve_written-Keeps (err failed, c) h = h
    solve_written-Keeps (err (client_error x y), c) h = h

    foreign_key_rejected-Keeps :
        (w : M Raw Solf) → Keeps P w → Keeps P (foreign_key_rejected codec backend user m proto w)
    unfolding foreign_key_rejected
    foreign_key_rejected-Keeps w k = record { at = λ c h. solve_written-Keeps (w c) (k.at c h) }

    write_solve-Keeps :
        (input : Solve) (o : Option Solf) → Keeps P (write_solve codec backend user m proto input o)
    unfolding write_solve
    write_solve-Keeps input none =
        search (keeps_rules, insert_solve-Keeps backend user P closed, foreign_key_rejected-Keeps)
    write_solve-Keeps input (some current) =
        search (keeps_rules, update_solve-Keeps backend user P closed, foreign_key_rejected-Keeps)

    checked_solve-Keeps :
        (input : Solve) (message : Option String) (o : Option Solf)
        → Keeps P (checked_solve codec backend user m proto input message o)
    unfolding checked_solve
    checked_solve-Keeps input (some message) o = search keeps_rules
    checked_solve-Keeps input none o = write_solve-Keeps input o

    apply_solve_upsert-Keeps :
        (i : Option Solve) (o : Option Solf)
        → Keeps P (apply_solve_upsert codec backend user m proto i o)
    unfolding apply_solve_upsert
    apply_solve_upsert-Keeps none o = search keeps_rules
    apply_solve_upsert-Keeps (some input) o = checked_solve-Keeps input _ o

    apply_valid_solve-Keeps : Keeps P (apply_valid_solve codec backend user m proto)
    unfolding apply_valid_solve
    apply_valid_solve-Keeps = search (
      keeps_rules,
      get_solve-Keeps backend user P closed,
      apply_solve_delete-Keeps,
      apply_solve_upsert-Keeps,
    )

    pub apply_solve-Keeps : Keeps P (apply_solve codec backend user m proto)
    unfolding apply_solve
    apply_solve-Keeps = or_outcome-Keeps _ _ apply_valid_solve-Keeps
