-- ===== src/Sync/Sessions.antt =====
-- internal/sync/service.go: applySession.
use cubesync.Prelude.{ℕ, String, Option, none, some, if◌then◌else◌, pos, eqb_ℤ, str_eq}
use cubesync.Store.{CubeSession, Backend, M, pure, optional, ◌>>=◌, ◌>>◌}
use cubesync.Store.Entities.{get_session, insert_session, update_session, delete_session}
use cubesync.Sync.Models.{Mutation, MutationOutcome, Session, Codec}
use cubesync.Sync.Validate.{accepted, rejected, validate_mutation_envelope, validate_session}
use cubesync.Sync.Convert.{session_params, session_conflict, or_outcome, append_session_change}

module _ {Raw : Type 0} (codec : Codec Raw) (backend : Backend Raw) (user : ℕ) (m : Mutation Raw)
    (proto : ℕ) where
  unfoldable pub session_deleted : CubeSession → Option CubeSession → M Raw (MutationOutcome Raw)
  session_deleted current none = pure (session_conflict codec m.id current proto)
  session_deleted current (some row) =
      append_session_change codec backend user "delete" row >> pure (accepted m.id row.version)

  unfoldable pub delete_current_session : CubeSession → Option ℕ → M Raw (MutationOutcome Raw)
  delete_current_session current (some t) = pure (accepted m.id current.version)
  delete_current_session current none = do
    deleted ← optional (delete_session backend user m.entity_id m.base_version)
    session_deleted current deleted

  unfoldable pub apply_session_delete : Option CubeSession → M Raw (MutationOutcome Raw)
  apply_session_delete none = pure (rejected m.id "not_found" "session does not exist")
  apply_session_delete (some current) =
      if eqb_ℤ (pos current.version) m.base_version
      then delete_current_session current current.deleted_at
      else pure (session_conflict codec m.id current proto)

  -- The row is written; the change is logged.
  unfoldable pub session_upserted : CubeSession → M Raw (MutationOutcome Raw)
  session_upserted row =
      append_session_change codec backend user "upsert" row >> pure (accepted m.id row.version)

  unfoldable pub write_session : Session → Option CubeSession → M Raw (MutationOutcome Raw)
  write_session input none =
      if eqb_ℤ m.base_version (pos 0)
      then insert_session backend user (session_params input) >>= session_upserted
      else pure (rejected m.id "not_found" "session does not exist")
  write_session input (some current) =
      if eqb_ℤ (pos current.version) m.base_version
      then update_session backend user (session_params input) m.base_version >>= session_upserted
      else pure (session_conflict codec m.id current proto)

  unfoldable pub checked_session :
      Session → Option String → Option CubeSession → M Raw (MutationOutcome Raw)
  checked_session input (some message) current = pure (rejected m.id "invalid_session" message)
  checked_session input none current = write_session input current

  unfoldable pub apply_session_upsert :
      Option Session → Option CubeSession → M Raw (MutationOutcome Raw)
  apply_session_upsert none current =
      pure (rejected m.id "invalid_session" "session data is invalid")
  apply_session_upsert (some input) current =
      checked_session input (validate_session codec input m.entity_id) current

  unfoldable pub apply_valid_session : M Raw (MutationOutcome Raw)
  apply_valid_session = do
    current ← optional (get_session backend user m.entity_id)
    if str_eq m.operation "delete"
        then apply_session_delete current
        else apply_session_upsert (codec.unmarshal_session m.payload) current

  unfoldable pub apply_session : M Raw (MutationOutcome Raw)
  apply_session = or_outcome (validate_mutation_envelope m) apply_valid_session
