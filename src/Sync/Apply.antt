-- ===== src/Sync/Apply.antt =====
-- internal/sync/service.go: applyMutation.
use cubesync.Prelude.{ℕ, Option, none, some, if◌then◌else◌, ◌==◌, str_eq}
use cubesync.Store.{Backend, M, pure, optional, ◌>>=◌, ◌>>◌}
use cubesync.Store.Queries.{get_processed_mutation, record_processed_mutation}
use cubesync.Sync.Models.{Mutation, MutationOutcome, Codec}
use cubesync.Sync.Validate.{rejected, nil_uuid}
use cubesync.Sync.Convert.{or_fail}
use cubesync.Sync.Sessions.{apply_session}
use cubesync.Sync.Solves.{apply_solve}

module _ {Raw : Type 0} (codec : Codec Raw) (backend : Backend Raw) (user : ℕ) (m : Mutation Raw)
    (proto : ℕ) where
  unfoldable pub apply_entity : M Raw (MutationOutcome Raw)
  apply_entity =
      if str_eq m.entity "session"
      then apply_session codec backend user m proto
      else if str_eq m.entity "solve"
      then apply_solve codec backend user m proto
      else pure (rejected m.id "invalid_entity" "entity must be session or solve")

  module _ (device : ℕ) where
    -- A new mutation: the outcome is stored under the mutation's id.
    unfoldable pub apply_new_mutation : M Raw (MutationOutcome Raw)
    apply_new_mutation = do
      outcome ← apply_entity
      raw ← or_fail (codec.marshal_outcome outcome)
      record_processed_mutation backend user device m.id raw
      pure outcome

    unfoldable pub replay_or_apply : Option Raw → M Raw (MutationOutcome Raw)
    replay_or_apply (some raw) = or_fail (codec.unmarshal_outcome raw)
    replay_or_apply none = apply_new_mutation

    -- A mutation whose id is nil is neither looked up nor stored; the caller has refused it.
    unfoldable pub apply_mutation : M Raw (MutationOutcome Raw)
    apply_mutation =
        if m.id == nil_uuid
        then apply_entity
        else optional (get_processed_mutation backend user device m.id) >>= replay_or_apply
