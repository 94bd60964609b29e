-- ===== src/Sync/Keeps/Mutations.antt =====
-- applyMutation keeps what its statements keep.
use cubesync.Prelude.{ℕ, Option, none, some}
use cubesync.Store.{Db, Backend}
use cubesync.Store.Keeps.{Keeps, Keeps-pure, Keeps-bind, Keeps-optional, Keeps-if}
use cubesync.Sync.Models.{Mutation, Codec}
use cubesync.Sync.Apply.{apply_entity, apply_new_mutation, replay_or_apply, apply_mutation}
use cubesync.Sync.Keeps.Closed.{EntityClosed, Closed, processed-Keeps, get_processed_mutation-Keeps}
use cubesync.Sync.Keeps.Sessions.{or_fail-Keeps, apply_session-Keeps}
use cubesync.Sync.Keeps.Solves.{apply_solve-Keeps}

module _ {Raw : Type 0} (codec : Codec Raw) (backend : Backend Raw) (user : ℕ) (P : Db Raw → Type 0)
    (closed : EntityClosed backend user P) where
  module _ (m : Mutation Raw) (proto : ℕ) where
    pub apply_entity-Keeps : Keeps P (apply_entity codec backend user m proto)
    unfolding apply_entity
    apply_entity-Keeps =
        Keeps-if _ _ _ (apply_session-Keeps codec backend user P closed m proto)
          (Keeps-if _ _ _ (apply_solve-Keeps codec backend user P closed m proto) (Keeps-pure _))

module _ {Raw : Type 0} (codec : Codec Raw) (backend : Backend Raw) (user : ℕ) (P : Db Raw → Type 0)
    (closed : Closed backend user P) where
  module _ (m : Mutation Raw) (proto : ℕ) where
    apply_new_mutation-Keeps :
        (device : ℕ) → Keeps P (apply_new_mutation codec backend user m proto device)
    unfolding apply_new_mutation
    apply_new_mutation-Keeps device =
        Keeps-bind _ _ (apply_entity-Keeps codec backend user P closed.entities m proto) λ outcome.
          Keeps-bind _ _ (or_fail-Keeps _) λ raw.
            Keeps-bind _ _ (processed-Keeps backend user P closed device m.id raw)
              (λ _. Keeps-pure outcome)

    replay_or_apply-Keeps :
        (device : ℕ) (o : Option Raw)
        → Keeps P (replay_or_apply codec backend user m proto device o)
    unfolding replay_or_apply
    replay_or_apply-Keeps device none = apply_new_mutation-Keeps device
    replay_or_apply-Keeps device (some raw) = or_fail-Keeps _

    pub apply_mutation-Keeps :
        (device : ℕ) → Keeps P (apply_mutation codec backend user m proto device)
    unfolding apply_mutation
    apply_mutation-Keeps device =
        Keeps-if _ _ _ (apply_entity-Keeps codec backend user P closed.entities m proto) (
          Keeps-bind _ _
            (Keeps-optional _ (get_processed_mutation-Keeps backend user P closed device m.id))
            (replay_or_apply-Keeps device))
