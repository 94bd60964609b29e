-- ===== src/Sync/Stale.antt =====
-- A write whose base version is not the version of the row: applySession.
use cubesync.Prelude.{
  ℕ, ◌≡◌, ◌≢◌, refl, ap, ◌∙◌, String, Bool, true, false, Option, none, some, pos, if◌then◌else◌,
  str_eq, eqb_ℤ, ltb_ℤ, if_both, not, ◌&&◌, ◌==◌,
}
use cubesync.Store.{
  CubeSession, Result, ok, Query, Conn, Backend, settle, pure, optional, optional_result, ◌>>=◌,
  continue,
}
use cubesync.Store.Bind.{exec_of_works}
use cubesync.Store.Entities.{session_of, get_session, row_or_none}
use cubesync.Sync.{Mutation, MutationOutcome, Session, Codec, is_accepted}
use cubesync.Sync.Validate.{nil_uuid, rejected, validate_mutation_envelope, validate_session}
use cubesync.Sync.Convert.{or_outcome, session_conflict}
use cubesync.Sync.Sessions.{
  apply_session_delete, write_session, checked_session, apply_session_upsert, apply_valid_session,
  apply_session,
}

-- The call returns an outcome that is not an acceptance, on the connection as it was.
pub record IsRefused {Raw : Type 0} (c : Conn Raw) (r : Result (MutationOutcome Raw) × Conn Raw)
    : Type 0 where
  pub outcome : MutationOutcome Raw
  pub returned : r ≡ (ok outcome, c)
  pub not_accepted : outcome.status ≢ is_accepted

module _ {Raw : Type 0} (codec : Codec Raw) (backend : Backend Raw) (user : ℕ) (m : Mutation Raw)
    (proto : ℕ) (c : Conn Raw) where
  rejected-IsRefused : (code message : String) → IsRefused c (pure (rejected m.id code message) c)
  unfolding rejected pure
  rejected-IsRefused code message = record {
    outcome = _;
    returned = refl;
    not_accepted = λ e. absurd (cc e);
  }

  conflict-IsRefused :
      (r : CubeSession) → IsRefused c (pure (session_conflict codec m.id r proto) c)
  unfolding session_conflict pure
  conflict-IsRefused r = record { outcome = _; returned = refl; not_accepted = λ e. absurd (cc e) }

  get_session-some :
      (r : CubeSession)
      → c.aborted ≡ false
      → backend.fault Query.get_session c.db ≡ false
      → session_of user m.entity_id c.db ≡ some r
      → optional (get_session backend user m.entity_id) c ≡ (ok (some r), c)
  unfolding optional get_session settle row_or_none optional_result
  get_session-some r live reads there =
      ap optional_result
        (exec_of_works backend Query.get_session _ c live reads ∙ ap (settle c) found)
    where
      found : row_or_none (session_of user m.entity_id c.db) c.db ≡ (ok r, c.db)
      found = rw there refl

  module _ (r : CubeSession) (stale : eqb_ℤ (pos r.version) m.base_version ≡ false) where
    delete-IsRefused : IsRefused c (apply_session_delete codec backend user m proto (some r) c)
    unfolding apply_session_delete
    delete-IsRefused = rw stale (conflict-IsRefused r)

    checked-IsRefused :
        (input : Session) (message : Option String)
        → IsRefused c (checked_session codec backend user m proto input message (some r) c)
    unfolding checked_session write_session
    checked-IsRefused input none = rw stale (conflict-IsRefused r)
    checked-IsRefused input (some message) = rejected-IsRefused "invalid_session" message

    upsert-IsRefused :
        (input : Option Session)
        → IsRefused c (apply_session_upsert codec backend user m proto input (some r) c)
    unfolding apply_session_upsert
    upsert-IsRefused none = rejected-IsRefused "invalid_session" "session data is invalid"
    upsert-IsRefused (some input) =
        checked-IsRefused input (validate_session codec input m.entity_id)

    either-IsRefused :
        (deletes : Bool)
        → IsRefused c (
            (if deletes
                then apply_session_delete codec backend user m proto (some r)
                else apply_session_upsert codec backend user m proto
                    (codec.unmarshal_session m.payload)
                    (some r))
              c)
    either-IsRefused true = delete-IsRefused
    either-IsRefused false = upsert-IsRefused (codec.unmarshal_session m.payload)

    found-IsRefused :
        (got : Result (Option CubeSession) × Conn Raw)
        → got ≡ (ok (some r), c)
        → IsRefused c (
            continue
              (λ current.
                if str_eq m.operation "delete"
                then apply_session_delete codec backend user m proto current
                else apply_session_upsert codec backend user m proto
                    (codec.unmarshal_session m.payload)
                    current)
              got)
    unfolding continue
    found-IsRefused got e = rw e (either-IsRefused (str_eq m.operation "delete"))

  -- A mutation of a session that exists, upsert or delete, whose base version is not the version of
  -- the row, is answered with an outcome that is not an acceptance, and changes nothing: neither a
  -- table nor the connection. The connection is not in an aborted transaction, and reading the
  -- session does not fail.
  pub stale_session-IsRefused :
      (r : CubeSession)
      → c.aborted ≡ false
      → backend.fault Query.get_session c.db ≡ false
      → session_of user m.entity_id c.db ≡ some r
      → eqb_ℤ (pos r.version) m.base_version ≡ false
      → IsRefused c (apply_session codec backend user m proto c)
  unfolding apply_session or_outcome validate_mutation_envelope apply_valid_session ◌>>=◌
  stale_session-IsRefused r live reads there stale =
      if_both answered (m.id == nil_uuid) (rejected-IsRefused _ _) (
        if_both answered (m.entity_id == nil_uuid) (rejected-IsRefused _ _) (
          if_both answered (ltb_ℤ m.base_version (pos 0)) (rejected-IsRefused _ _) (
            if_both answered
              (not (str_eq m.operation "upsert") && not (str_eq m.operation "delete"))
              (rejected-IsRefused _ _)
              (found-IsRefused r stale _ (get_session-some r live reads there)))))
    where
      answered : Option (MutationOutcome Raw) → Type 0
      answered o = IsRefused c (or_outcome o (apply_valid_session codec backend user m proto) c)
