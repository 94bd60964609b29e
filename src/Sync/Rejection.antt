-- ===== src/Sync/Rejection.antt =====
-- applySolve on a solve that names a session that does not exist.
use cubesync.Prelude.{
  ℕ, ◌≡◌, refl, ap, ◌∙◌, true, false, Option, none, some, pos, if◌then◌else◌, str_eq,
}
use cubesync.Store.{
  ok, err, failed, no_rows, foreign_key_violation, Query, Conn, Backend, M, exec, settle, pure,
  raise, optional, optional_result, ◌>>=◌, ◌>>◌, continue,
}
use cubesync.Store.Bind.{exec_of_works}
use cubesync.Store.Queries.{record_processed_mutation}
use cubesync.Store.Entities.{
  solve_of, has_session, get_solve, row_or_none, insert_solve, insert_solve_statement,
}
use cubesync.Sync.Models.{Mutation, MutationOutcome, Solve, Codec}
use cubesync.Sync.Validate.{rejected, validate_mutation_envelope, validate_solve}
use cubesync.Sync.Convert.{or_fail, or_outcome, solve_params}
use cubesync.Sync.Solves.{
  solve_written, foreign_key_rejected, write_solve, checked_solve, apply_solve_upsert,
  apply_solve_delete, apply_valid_solve, apply_solve,
}
use cubesync.Sync.Apply.{apply_entity, apply_new_mutation}
use cubesync.Sync.Drain.{IsReliable}

module _ {Raw : Type 0} (codec : Codec Raw) (backend : Backend Raw) (user : ℕ) (m : Mutation Raw)
    (proto device : ℕ) (reliable : IsReliable backend) where
  abort : Conn Raw → Conn Raw
  abort c = record c { aborted = c.in_tx }

  insert_solve-missing :
      (input : Solve) (c : Conn Raw)
      → c.aborted ≡ false
      → solve_of user input.id c.db ≡ none
      → has_session user input.session_id c.db.cube_sessions ≡ false
      → foreign_key_rejected codec backend user m proto
          (insert_solve backend user (solve_params input))
          c
        ≡ (ok (rejected m.id "invalid_session" "referenced session does not exist"), abort c)
  unfolding foreign_key_rejected insert_solve insert_solve_statement settle solve_written abort
  insert_solve-missing input c live new missing = ap (solve_written codec backend user m proto) (
      exec_of_works backend Query.insert_solve _ c live (reliable Query.insert_solve c.db)
      ∙ ap (settle c) refused)
    where
      refused :
          insert_solve_statement backend user (solve_params input) c.db
          ≡ (err foreign_key_violation, c.db)
      refused = rw (new, missing) refl

  get_solve-none :
      (id : ℕ) (c : Conn Raw)
      → c.aborted ≡ false
      → solve_of user id c.db ≡ none
      → optional (get_solve backend user id) c ≡ (ok none, c)
  unfolding optional get_solve settle row_or_none optional_result
  get_solve-none id c live new = ap optional_result (
      exec_of_works backend Query.get_solve _ c live (reliable Query.get_solve c.db)
      ∙ ap (settle c) nothing)
    where
      nothing : row_or_none (solve_of user id c.db) c.db ≡ (err no_rows, c.db)
      nothing = rw new refl

  -- An aborted transaction stores no outcome.
  aborted-fails :
      (outcome : MutationOutcome Raw) (raw : Option Raw) (c : Conn Raw)
      → c.aborted ≡ true
      → ((or_fail raw >>= λ r. record_processed_mutation backend user device m.id r >> pure outcome)
          c).0
        ≡ err failed
  unfolding or_fail raise pure ◌>>=◌ continue record_processed_mutation exec
  aborted-fails outcome none c dead = refl
  aborted-fails outcome (some raw) c dead = rw dead refl

  apply_solve-missing :
      (input : Solve) (c : Conn Raw)
      → c.aborted ≡ false
      → validate_mutation_envelope m ≡ none
      → m.operation ≡ "upsert"
      → m.base_version ≡ pos 0
      → codec.unmarshal_solve m.payload ≡ some input
      → validate_solve codec input m.entity_id ≡ none
      → input.id ≡ m.entity_id
      → solve_of user m.entity_id c.db ≡ none
      → has_session user input.session_id c.db.cube_sessions ≡ false
      → apply_solve codec backend user m proto c
        ≡ (ok (rejected m.id "invalid_session" "referenced session does not exist"), abort c)
  unfolding apply_solve or_outcome apply_valid_solve ◌>>=◌ continue apply_solve_upsert checked_solve
      write_solve foreign_key_rejected abort
  apply_solve-missing input c live shaped upserts fresh parsed valid named new missing =
      rw shaped (ap (continue _) (get_solve-none m.entity_id c live new) ∙ written)
    where
      written :
          (if str_eq m.operation "delete"
              then apply_solve_delete codec backend user m proto none
              else apply_solve_upsert codec backend user m proto
                  (codec.unmarshal_solve m.payload)
                  none)
            c
          ≡ (ok (rejected m.id "invalid_session" "referenced session does not exist"), abort c)
      written =
          rw (upserts, parsed, valid, fresh)
            (insert_solve-missing input c live (rw named new) missing)

  apply_entity-solve :
      m.entity ≡ "solve"
      → apply_entity codec backend user m proto ≡ apply_solve codec backend user m proto
  unfolding apply_entity
  apply_entity-solve solves = simp (solves)

  -- The rejection of a solve whose session does not exist is not what the mutation ends with: for a
  -- new solve, valid in all else, that names a session which its user does not have, applying
  -- the mutation in the transaction of the request fails, on a server on which no statement fails
  -- but those that the constraints and the aborted transaction refuse.
  pub missing_session-fails :
      (input : Solve) (c : Conn Raw)
      → c.aborted ≡ false
      → c.in_tx ≡ true
      → validate_mutation_envelope m ≡ none
      → m.entity ≡ "solve"
      → m.operation ≡ "upsert"
      → m.base_version ≡ pos 0
      → codec.unmarshal_solve m.payload ≡ some input
      → validate_solve codec input m.entity_id ≡ none
      → input.id ≡ m.entity_id
      → solve_of user m.entity_id c.db ≡ none
      → has_session user input.session_id c.db.cube_sessions ≡ false
      → (apply_new_mutation codec backend user m proto device c).0 ≡ err failed
  unfolding apply_new_mutation ◌>>=◌ continue abort
  missing_session-fails input c live inside shaped solves upserts fresh parsed valid named new
        missing =
      ap (λ r. (continue record_outcome r).0)
        (ap (λ f. f c) (apply_entity-solve solves)
          ∙ apply_solve-missing input c live shaped upserts fresh parsed valid named new missing)
      ∙ aborted-fails (rejected m.id "invalid_session" "referenced session does not exist") _
          (abort c) inside
    where
      record_outcome : MutationOutcome Raw → M Raw (MutationOutcome Raw)
      record_outcome outcome = or_fail (codec.marshal_outcome outcome) >>= λ r.
          record_processed_mutation backend user device m.id r >> pure outcome
