-- ===== src/Sync/Keeps/Sessions.antt =====
-- applySession keeps what its statements keep.
use cubesync.Prelude.{ℕ, String, Option, none, some}
use cubesync.Store.{Db, CubeSession, Backend, M}
use cubesync.Store.Keeps.{Keeps, keeps_rules, Keeps-pure, Keeps-raise}
use cubesync.Sync.Models.{Mutation, MutationOutcome, Session, Codec}
use cubesync.Sync.Convert.{or_fail, or_outcome, append_session_change}
use cubesync.Sync.Sessions.{
  session_deleted, delete_current_session, apply_session_delete, session_upserted, write_session,
  checked_session, apply_session_upsert, apply_valid_session, apply_session,
}
use cubesync.Sync.Keeps.Closed.{EntityClosed}
use cubesync.Sync.Keeps.Entities.{
  append_change-Keeps, get_session-Keeps, insert_session-Keeps, update_session-Keeps,
  delete_session-Keeps,
}

pub or_fail-Keeps :
    {Raw A : Type 0} {P : Db Raw → Type 0} (o : Option A) → Keeps P (or_fail {Raw = Raw} o)
unfolding or_fail
or_fail-Keeps none = Keeps-raise _
or_fail-Keeps (some a) = Keeps-pure a

pub or_outcome-Keeps :
    {Raw : Type 0} {P : Db Raw → Type 0} (o : Option (MutationOutcome Raw))
    (m : M Raw (MutationOutcome Raw))
    → Keeps P m
    → Keeps P (or_outcome o m)
unfolding or_outcome
or_outcome-Keeps none m k = k
or_outcome-Keeps (some o) m k = Keeps-pure o

module _ {Raw : Type 0} (codec : Codec Raw) (backend : Backend Raw) (user : ℕ) (P : Db Raw → Type 0)
    (closed : EntityClosed backend user P) where
  append_session_change-Keeps :
      (operation : String) (row : CubeSession)
      → Keeps P (append_session_change codec backend user operation row)
  unfolding append_session_change
  append_session_change-Keeps operation row =
      search (keeps_rules, or_fail-Keeps, append_change-Keeps backend user P closed)

  module _ (m : Mutation Raw) (proto : ℕ) where
    session_deleted-Keeps :
        (current : CubeSession) (o : Option CubeSession)
        → Keeps P (session_deleted codec backend user m proto current o)
    unfolding session_deleted
    session_deleted-Keeps current none = search keeps_rules
    session_deleted-Keeps current (some row) = search (keeps_rules, append_session_change-Keeps)

    delete_current_session-Keeps :
        (current : CubeSession) (o : Option ℕ)
        → Keeps P (delete_current_session codec backend user m proto current o)
    unfolding delete_current_session
    delete_current_session-Keeps current none =
        search (keeps_rules, delete_session-Keeps backend user P closed, session_deleted-Keeps)
    delete_current_session-Keeps current (some t) = search keeps_rules

    apply_session_delete-Keeps :
        (o : Option CubeSession) → Keeps P (apply_session_delete codec backend user m proto o)
    unfolding apply_session_delete
    apply_session_delete-Keeps none = search keeps_rules
    apply_session_delete-Keeps (some current) = search (keeps_rules, delete_current_session-Keeps)

    session_upserted-Keeps :
        (row : CubeSession) → Keeps P (session_upserted codec backend user m proto row)
    unfolding session_upserted
    session_upserted-Keeps row = search (keeps_rules, append_session_change-Keeps)

    write_session-Keeps :
        (input : Session) (o : Option CubeSession)
        → Keeps P (write_session codec backend user m proto input o)
    unfolding write_session
    write_session-Keeps input none =
        search (keeps_rules, insert_session-Keeps backend user P closed, session_upserted-Keeps)
    write_session-Keeps input (some current) =
        search (keeps_rules, update_session-Keeps backend user P closed, session_upserted-Keeps)

    checked_session-Keeps :
        (input : Session) (message : Option String) (o : Option CubeSession)
        → Keeps P (checked_session codec backend user m proto input message o)
    unfolding checked_session
    checked_session-Keeps input (some message) o = search keeps_rules
    checked_session-Keeps input none o = write_session-Keeps input o

    apply_session_upsert-Keeps :
        (i : Option Session) (o : Option CubeSession)
        → Keeps P (apply_session_upsert codec backend user m proto i o)
    unfolding apply_session_upsert
    apply_session_upsert-Keeps none o = search keeps_rules
    apply_session_upsert-Keeps (some input) o = checked_session-Keeps input _ o

    apply_valid_session-Keeps : Keeps P (apply_valid_session codec backend user m proto)
    unfolding apply_valid_session
    apply_valid_session-Keeps = search (
      keeps_rules,
      get_session-Keeps backend user P closed,
      apply_session_delete-Keeps,
      apply_session_upsert-Keeps,
    )

    pub apply_session-Keeps : Keeps P (apply_session codec backend user m proto)
    unfolding apply_session
    apply_session-Keeps = or_outcome-Keeps _ _ apply_valid_session-Keeps
