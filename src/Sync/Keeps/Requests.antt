-- ===== src/Sync/Keeps/Requests.antt =====
-- `sync` keeps what its statements keep, also where it fails and where its transaction is rolled
-- back.
use cubesync.Prelude.{ℕ, ◌≤◌, Option, none, some, List, [], ◌∷◌, ℤ}
use cubesync.Store.{Db, Error, Backend}
use cubesync.Store.Keeps.{
  Keeps, keeps_rules, Keeps-pure, Keeps-raise, Keeps-bind, Keeps-transaction, SequenceFrom,
}
use cubesync.Sync.Models.{Mutation, Request, SyncDevice, Codec}
use cubesync.Sync.Pages.{read_page}
use cubesync.Sync.Service.{
  Service, raise_some, expired, check_cursor_not_expired, apply_mutations, push_and_read,
  acknowledge, push, pull_only, push_or_pull, sync,
}
use cubesync.Sync.Keeps.Closed.{
  Closed, upsert_device-Keeps, ack-Keeps, list_changes-Keeps, lock-Keeps, min_valid_cursor-Keeps,
}
use cubesync.Sync.Keeps.Sequence.{SequenceFrom-Closed}
use cubesync.Sync.Keeps.Mutations.{apply_mutation-Keeps}

raise_some-Keeps :
    {Raw : Type 0} {P : Db Raw → Type 0} (o : Option Error) → Keeps P (raise_some {Raw = Raw} o)
unfolding raise_some
raise_some-Keeps none = Keeps-pure tt
raise_some-Keeps (some e) = Keeps-raise e

module _ {Raw : Type 0} (s : Service) (codec : Codec Raw) (backend : Backend Raw) (user : ℕ)
    (P : Db Raw → Type 0) (closed : Closed backend user P) where
  expired-Keeps : (cursor : ℤ) (least : ℕ) → Keeps P (expired s codec backend user cursor least)
  unfolding expired
  expired-Keeps cursor least = search keeps_rules

  check_cursor-Keeps : (cursor : ℤ) → Keeps P (check_cursor_not_expired s codec backend user cursor)
  unfolding check_cursor_not_expired
  check_cursor-Keeps cursor =
      search (keeps_rules, min_valid_cursor-Keeps backend user P closed, expired-Keeps)

  read_page-Keeps :
      (budget proto limit : ℕ) (cursor : ℤ)
      → Keeps P (read_page codec backend budget user proto limit cursor)
  unfolding read_page
  read_page-Keeps budget proto limit cursor =
      search (keeps_rules, list_changes-Keeps backend user P closed)

  module _ (device : SyncDevice) (proto : ℕ) where
    apply_mutations-Keeps :
        (ms : List (Mutation Raw)) → Keeps P (apply_mutations s codec backend user device proto ms)
    unfolding apply_mutations
    apply_mutations-Keeps [] = search keeps_rules
    apply_mutations-Keeps (m ∷ ms) = search (
      keeps_rules,
      apply_mutation-Keeps codec backend user P closed m proto device.id,
      apply_mutations-Keeps ms,
    )

    module _ (req : Request Raw) where
      pub push_and_read-Keeps :
          (limit : ℕ) → Keeps P (push_and_read s codec backend user device proto req limit)
      unfolding push_and_read
      push_and_read-Keeps limit = search (
        keeps_rules,
        lock-Keeps backend user P closed,
        upsert_device-Keeps backend user P closed,
        apply_mutations-Keeps,
        read_page-Keeps,
      )

      acknowledge-Keeps : Keeps P (acknowledge s codec backend user device proto req)
      unfolding acknowledge
      acknowledge-Keeps = search (keeps_rules, ack-Keeps backend user P closed)

      pull_only-Keeps :
          (limit : ℕ) → Keeps P (pull_only s codec backend user device proto req limit)
      unfolding pull_only
      pull_only-Keeps limit = search (
        keeps_rules,
        upsert_device-Keeps backend user P closed,
        read_page-Keeps,
        acknowledge-Keeps,
      )

-- What a rollback needs of a property: it looks at the sequence only as a bound.
abbrev pub SurvivesRollback : {Raw : Type 0} → (Db Raw → Type 0) → Type 0
SurvivesRollback {Raw} P =
    (d : Db Raw) (n : ℕ) → P d → d.last_change_id ≤ n → P (record d { last_change_id = n })

module _ {Raw : Type 0} (s : Service) (codec : Codec Raw) (backend : Backend Raw) (user : ℕ)
    (P : Db Raw → Type 0) (closed : Closed backend user P) (survives : SurvivesRollback P)
    (proto : ℕ) (req : Request Raw) where
  push-Keeps :
      (device : SyncDevice) (limit : ℕ) → Keeps P (push s codec backend user device proto req limit)
  unfolding push
  push-Keeps device limit =
      Keeps-bind _ _
        (Keeps-transaction backend _ survives
          (λ k.
            push_and_read-Keeps s codec backend user (SequenceFrom k)
              (SequenceFrom-Closed backend user k) device proto req limit)
          (push_and_read-Keeps s codec backend user P closed device proto req limit))
        (λ response.
          Keeps-bind _ _ (acknowledge-Keeps s codec backend user P closed device proto req)
            (λ _. Keeps-pure response))

  push_or_pull-Keeps :
      (device : SyncDevice) (ms : List (Mutation Raw)) (limit : ℕ)
      → Keeps P (push_or_pull s codec backend user device proto req ms limit)
  unfolding push_or_pull
  push_or_pull-Keeps device [] limit =
      pull_only-Keeps s codec backend user P closed device proto req limit
  push_or_pull-Keeps device (m ∷ ms) limit = push-Keeps device limit

  pub sync-Keeps : Keeps P (sync s codec backend user req proto)
  unfolding sync
  sync-Keeps = search (
    keeps_rules,
    raise_some-Keeps,
    check_cursor-Keeps s codec backend user P closed,
    push_or_pull-Keeps,
  )
