-- ===== src/Sync/Atomic.antt =====
-- Where a request with mutations fails: Sync, its transaction, and the rejection of applySolve.
use cubesync.Prelude.{
  ℕ, ◌≡◌, ◌≢◌, refl, Bool, true, false, Option, none, some, List, ◌∷◌, if◌then◌else◌, leb_ℤ, ltb_ℤ,
  ℤ, pos,
}
use cubesync.Store.{
  Db, Error, err, Query, Conn, Backend, pure, raise, ignore, ignore_result, ◌>>=◌, ◌>>◌, continue,
  transaction,
}
use cubesync.Store.Undone.{Undone, transaction-Undone, bind-Undone, bind_last-Undone}
use cubesync.Store.Keeps.{Keeps-if, Keeps-pure, Keeps-bind, Keeps-exec, Keeps-raise}
use cubesync.Store.Queries.{min_valid_cursor, update_device_ack_cursor}
use cubesync.Sync.Models.{Mutation, Request, Response, SyncDevice, Codec}
use cubesync.Sync.Service.{
  Service, check_request, raise_some, expired, check_cursor_not_expired, acknowledge, push,
  push_and_read, push_or_pull, sync, effective_limit,
}

module _ {Raw : Type 0} (s : Service) (codec : Codec Raw) (backend : Backend Raw) (user proto : ℕ)
    (req : Request Raw) where
  check_cursor-same :
      (cursor : ℤ) (c : Conn Raw)
      → (check_cursor_not_expired s codec backend user cursor c).1.db ≡ c.db
  unfolding check_cursor_not_expired expired min_valid_cursor
  check_cursor-same cursor c =
      (Keeps-if {P = λ db. db ≡ c.db} (leb_ℤ cursor (pos 0)) _ _ (Keeps-pure tt) (
          Keeps-bind _ _ (Keeps-exec backend _ _ (λ db h. h))
            (λ least. Keeps-if _ _ _ (Keeps-raise _) (Keeps-pure tt)))).at
        c refl

  raise_some-same : (o : Option Error) (c : Conn Raw) → (raise_some o c).1.db ≡ c.db
  unfolding raise_some raise pure
  raise_some-same none c = refl
  raise_some-same (some e) c = refl

  acknowledge-total :
      (device : SyncDevice) (response : Response Raw) (d : Conn Raw) (e : Error)
      → ((acknowledge s codec backend user device proto req >> pure response) d).0 ≢ err e
  unfolding acknowledge ignore ignore_result pure ◌>>=◌ continue
  acknowledge-total device response d e = ends (ltb_ℤ (pos 0) req.cursor)
    where
      ends :
          (b : Bool)
          → (((if b
                  then ignore (update_device_ack_cursor backend user device.id req.cursor)
                  else pure tt)
                >> pure response)
              d).0
            ≢ err e
      ends true h = absurd (cc h)
      ends false h = absurd (cc h)

  push_or_pull-Undone :
      (replied : (db : Db Raw) → backend.fault Query.commit_reply db ≡ false) (m : Mutation Raw)
      (ms all : List (Mutation Raw)) (limit : ℕ) (c : Conn Raw)
      → all ≡ m ∷ ms
      → Undone c.db (push_or_pull s codec backend user req.device proto req all limit c)
  unfolding push_or_pull push
  push_or_pull-Undone replied m ms all limit c pushes = rw pushes (
      bind_last-Undone
        (transaction backend (push_and_read s codec backend user req.device proto req limit)) _ c
        (transaction-Undone backend replied _ c)
        (λ response d e. acknowledge-total req.device response d e))

  -- A request with mutations that fails leaves every table as it was before the request, the
  -- devices and the stored outcomes too; only the sequence of the log may have moved. The reply
  -- to a commit is not lost.
  pub sync-atomic :
      (c : Conn Raw) (m : Mutation Raw) (ms : List (Mutation Raw)) (e : Error)
      → ((db : Db Raw) → backend.fault Query.commit_reply db ≡ false)
      → req.mutations ≡ m ∷ ms
      → (sync s codec backend user req proto c).0 ≡ err e
      → let after = (sync s codec backend user req proto c).1.db in
        after ≡ record c.db { last_change_id = after.last_change_id }
  unfolding sync
  sync-atomic c m ms e replied pushes =
      bind-Undone (raise_some (check_request s codec req)) _ c
        (raise_some-same (check_request s codec req) c)
        (λ _ d.
          bind-Undone (check_cursor_not_expired s codec backend user req.cursor)
            (λ _.
              push_or_pull s codec backend user req.device proto req req.mutations
                (effective_limit s req.limit))
            d (check_cursor-same req.cursor d)
            (λ _ d'.
              push_or_pull-Undone replied m ms req.mutations (effective_limit s req.limit) d'
                pushes))
        e
