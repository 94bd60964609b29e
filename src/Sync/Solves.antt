-- ===== src/Sync/Solves.antt =====
-- internal/sync/service.go: applySolve.
use cubesync.Prelude.{ℕ, String, Option, none, some, if◌then◌else◌, pos, eqb_ℤ, str_eq}
use cubesync.Store.{
  Solf, failed, unique_violation, auth_error, foreign_key_violation, no_rows, client_error, Result,
  ok, err, Conn, Backend, M, pure, optional, ◌>>=◌, ◌>>◌,
}
use cubesync.Store.Entities.{get_solve, insert_solve, update_solve, delete_solve}
use cubesync.Sync.Models.{Mutation, MutationOutcome, Solve, Codec}
use cubesync.Sync.Validate.{accepted, rejected, validate_mutation_envelope, validate_solve}
use cubesync.Sync.Convert.{solve_params, solve_conflict, or_outcome, append_solve_change}

module _ {Raw : Type 0} (codec : Codec Raw) (backend : Backend Raw) (user : ℕ) (m : Mutation Raw)
    (proto : ℕ) where
  unfoldable pub solve_deleted : Solf → Option Solf → M Raw (MutationOutcome Raw)
  solve_deleted current none = pure (solve_conflict codec m.id current proto)
  solve_deleted current (some row) =
      append_solve_change codec backend user "delete" row >> pure (accepted m.id row.version)

  unfoldable pub delete_current_solve : Solf → Option ℕ → M Raw (MutationOutcome Raw)
  delete_current_solve current (some t) = pure (accepted m.id current.version)
  delete_current_solve current none = do
    deleted ← optional (delete_solve backend user m.entity_id m.base_version)
    solve_deleted current deleted

  unfoldable pub apply_solve_delete : Option Solf → M Raw (MutationOutcome Raw)
  apply_solve_delete none = pure (rejected m.id "not_found" "solve does not exist")
  apply_solve_delete (some current) =
      if eqb_ℤ (pos current.version) m.base_version
      then delete_current_solve current current.deleted_at
      else pure (solve_conflict codec m.id current proto)

  -- The row is written; the change is logged.
  unfoldable pub solve_upserted : Solf → M Raw (MutationOutcome Raw)
  solve_upserted row =
      append_solve_change codec backend user "upsert" row >> pure (accepted m.id row.version)

  -- isForeignKeyViolation: the rejection that hides the error of the statement.
  unfoldable pub solve_written : Result Solf × Conn Raw → Result (MutationOutcome Raw) × Conn Raw
  unfolding solve_upserted
  solve_written (ok row, c) = solve_upserted row c
  solve_written (err foreign_key_violation, c) =
      (ok (rejected m.id "invalid_session" "referenced session does not exist"), c)
  solve_written (err no_rows, c) = (err no_rows, c)
  solve_written (err unique_violation, c) = (err unique_violation, c)
  solve_written (err (auth_error k t), c) = (err (auth_error k t), c)
  solve_written (err failed, c) = (err failed, c)
  solve_written (err (client_error k t), c) = (err (client_error k t), c)

  unfoldable pub foreign_key_rejected : M Raw Solf → M Raw (MutationOutcome Raw)
  unfolding solve_written
  foreign_key_rejected m' c = solve_written (m' c)

  unfoldable pub write_solve : Solve → Option Solf → M Raw (MutationOutcome Raw)
  write_solve input none =
      if eqb_ℤ m.base_version (pos 0)
      then foreign_key_rejected (insert_solve backend user (solve_params input))
      else pure (rejected m.id "not_found" "solve does not exist")
  write_solve input (some current) =
      if eqb_ℤ (pos current.version) m.base_version
      then foreign_key_rejected (update_solve backend user (solve_params input) m.base_version)
      else pure (solve_conflict codec m.id current proto)

  unfoldable pub checked_solve : Solve → Option String → Option Solf → M Raw (MutationOutcome Raw)
  checked_solve input (some message) current = pure (rejected m.id "invalid_solve" message)
  checked_solve input none current = write_solve input current

  unfoldable pub apply_solve_upsert : Option Solve → Option Solf → M Raw (MutationOutcome Raw)
  apply_solve_upsert none current = pure (rejected m.id "invalid_solve" "solve data is invalid")
  apply_solve_upsert (some input) current =
      checked_solve input (validate_solve codec input m.entity_id) current

  unfoldable pub apply_valid_solve : M Raw (MutationOutcome Raw)
  apply_valid_solve = do
    current ← optional (get_solve backend user m.entity_id)
    if str_eq m.operation "delete"
        then apply_solve_delete current
        else apply_solve_upsert (codec.unmarshal_solve m.payload) current

  unfoldable pub apply_solve : M Raw (MutationOutcome Raw)
  apply_solve = or_outcome (validate_mutation_envelope m) apply_valid_solve
