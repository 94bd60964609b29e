-- ===== src/Store/Queries.antt =====
-- internal/store/db/sync.sql.go: the statements of synchronization.
use cubesync.Prelude.{
  ℕ, suc, ◌-◌, ◌%◌, String, Bool, not, ◌&&◌, Option, none, some, List, [], ◌∷◌, ◌++◌, ltb, ◌==◌,
  if◌then◌else◌, find, select, update_where, any, take, ℤ, pos, negsuc, ltb_ℤ, is_some,
}
use cubesync.Store.Tables.{User, Device, ProcessedMutation, ChangeLog}
use cubesync.Store.Exec.{
  no_rows, foreign_key_violation, failed, ok, err, Query, Backend, M, Statement, exec,
}

-- the largest bigint
abbrev pub max_int64 : ℕ
max_int64 = 9223372036854775807

-- Go's conversion of an int to int32
unfoldable pub to_int32 : ℕ → ℤ
to_int32 n = let m = n % 4294967296 in if ltb m 2147483648 then pos m else negsuc (4294967295 - m)

-- the deletion mark
abbrev pub is_deleted : Option ℕ → Bool
is_deleted d = is_some d

abbrev pub is_device : ℕ → ℕ → Device → Bool
is_device user id d = d.user_id == user && d.id == id

abbrev pub is_user : ℕ → User → Bool
is_user id u = u.id == id

abbrev pub has_user : ℕ → List User → Bool
has_user id users = any (is_user id) users

abbrev pub is_behind : ℕ → ℕ → ℕ → Device → Bool
is_behind user id n d = is_device user id d && ltb d.last_ack_cursor n

abbrev pub acknowledged : ℕ → Device → Device
acknowledged n d = record d { last_ack_cursor = n }

-- COALESCE(MIN(last_ack_cursor), 0) over the user's devices seen after `cutoff`
abbrev pub active : ℕ → ℕ → List Device → List Device
active user cutoff = select (λ d. d.user_id == user && ltb cutoff d.last_seen_at)

abbrev pub least_ack : ℕ → List Device → ℕ
least_ack m [] = m
least_ack m (d ∷ ds) = least_ack (if ltb d.last_ack_cursor m then d.last_ack_cursor else m) ds

abbrev pub min_ack : List Device → ℕ
min_ack [] = 0
min_ack (d ∷ ds) = least_ack d.last_ack_cursor ds

module _ {Raw : Type 0} where
  -- ORDER BY change_id keeps the order of the log, which the sequence makes ascending.
  abbrev pub after_cursor : ℕ → ℤ → List (ChangeLog Raw) → List (ChangeLog Raw)
  after_cursor user cursor = select (λ r. r.user_id == user && ltb_ℤ cursor (pos r.change_id))

  abbrev pub is_processed : ℕ → ℕ → ℕ → ProcessedMutation Raw → Bool
  is_processed user device mutation p =
      p.user_id == user && p.device_id == device && p.mutation_id == mutation

  unfoldable pub outcome_row : Option (ProcessedMutation Raw) → Statement Raw Raw
  outcome_row none db = (err no_rows, db)
  outcome_row (some p) db = (ok p.outcome, db)

module _ {Raw : Type 0} (backend : Backend Raw) where
  -- AcquireAdvisoryLockByID waits for the lock and changes no table.
  unfoldable pub acquire_advisory_lock : ℤ → M Raw (Unit {0})
  acquire_advisory_lock key = exec backend Query.acquire_advisory_lock (λ db. (ok tt, db))

  abbrev pub new_device : ℕ → ℕ → String → String → Device
  new_device id user name platform = record {
    id = id;
    user_id = user;
    name = name;
    platform = platform;
    first_seen_at = backend.now;
    last_seen_at = backend.now;
    last_ack_cursor = 0;
  }

  abbrev pub seen_again : String → String → Device → Device
  seen_again name platform d = record d {
    name = name;
    platform = platform;
    last_seen_at = backend.now;
  }

  -- ON CONFLICT DO UPDATE keeps the acknowledged cursor. A new row wants its user to exist; the
  -- other rows of a request refer to the same user, after its device.
  unfoldable pub upsert_device_statement : ℕ → ℕ → String → String → Statement Raw (Unit {0})
  upsert_device_statement id user name platform db =
      if any (is_device user id) db.devices
      then (
        ok tt,
        record db {
          devices = update_where (is_device user id) (seen_again name platform) db.devices;
        },
      )
      else if has_user user db.users
      then (ok tt, record db { devices = db.devices ++ new_device id user name platform ∷ [] })
      else (err foreign_key_violation, db)

  unfoldable pub upsert_device : ℕ → ℕ → String → String → M Raw (Unit {0})
  upsert_device id user name platform =
      exec backend Query.upsert_device (upsert_device_statement id user name platform)

  unfoldable pub update_device_ack_cursor_statement : ℕ → ℕ → ℤ → Statement Raw (Unit {0})
  update_device_ack_cursor_statement user id (negsuc n) db = (ok tt, db)
  update_device_ack_cursor_statement user id (pos n) db = (
    ok tt,
    record db { devices = update_where (is_behind user id n) (acknowledged n) db.devices },
  )

  unfoldable pub update_device_ack_cursor : ℕ → ℕ → ℤ → M Raw (Unit {0})
  update_device_ack_cursor user id cursor =
      exec backend Query.update_device_ack_cursor
        (update_device_ack_cursor_statement user id cursor)

  unfoldable pub min_valid_cursor : ℕ → ℕ → M Raw ℕ
  min_valid_cursor user cutoff =
      exec backend Query.min_valid_cursor (λ db. (ok (min_ack (active user cutoff db.devices)), db))

  -- PostgreSQL refuses a negative LIMIT.
  unfoldable pub list_changes_statement : ℕ → ℤ → ℤ → Statement Raw (List (ChangeLog Raw))
  list_changes_statement user cursor (negsuc n) db = (err failed, db)
  list_changes_statement user cursor (pos n) db =
      (ok (take n (after_cursor user cursor db.change_log)), db)

  unfoldable pub list_changes : ℕ → ℤ → ℤ → M Raw (List (ChangeLog Raw))
  list_changes user cursor limit =
      exec backend Query.list_changes (list_changes_statement user cursor limit)

  -- The new row takes the next value of the sequence.
  unfoldable pub append_change_statement : ℕ → String → ℕ → String → ℕ → Raw → Statement Raw ℕ
  append_change_statement user entity_type entity_id operation version payload db = (
    ok (suc db.last_change_id),
    record db {
      change_log =
          db.change_log
          ++ record {
            change_id = suc db.last_change_id;
            user_id = user;
            entity_type = entity_type;
            entity_id = entity_id;
            operation = operation;
            version = version;
            payload = backend.jsonb payload;
            created_at = backend.now;
          }
            ∷ [];
      last_change_id = suc db.last_change_id;
    },
  )

  unfoldable pub append_change : ℕ → String → ℕ → String → ℕ → Raw → M Raw ℕ
  append_change user entity_type entity_id operation version payload =
      exec backend Query.append_change
        (append_change_statement user entity_type entity_id operation version payload)

  unfoldable pub get_processed_mutation : ℕ → ℕ → ℕ → M Raw Raw
  unfolding outcome_row
  get_processed_mutation user device mutation =
      exec backend Query.get_processed_mutation
        λ db. outcome_row (find (is_processed user device mutation) db.processed_mutations) db

  -- ON CONFLICT DO NOTHING, and the foreign key to the device.
  unfoldable pub record_processed_mutation_statement : ℕ → ℕ → ℕ → Raw → Statement Raw (Unit {0})
  record_processed_mutation_statement user device mutation outcome db =
      if any (is_processed user device mutation) db.processed_mutations
      then (ok tt, db)
      else if any (is_device user device) db.devices
      then (
        ok tt,
        record db {
          processed_mutations =
              db.processed_mutations
              ++ record {
                user_id = user;
                device_id = device;
                mutation_id = mutation;
                outcome = backend.jsonb outcome;
                created_at = backend.now;
              }
                ∷ [];
        },
      )
      else (err foreign_key_violation, db)

  unfoldable pub record_processed_mutation : ℕ → ℕ → ℕ → Raw → M Raw (Unit {0})
  record_processed_mutation user device mutation outcome =
      exec backend Query.record_processed_mutation
        (record_processed_mutation_statement user device mutation outcome)

  unfoldable pub prune_change_log : ℕ → ℕ → M Raw (Unit {0})
  prune_change_log user change_id = exec backend Query.prune_change_log λ db. (
    ok tt,
    record db {
      change_log = select (λ r. not (r.user_id == user && ltb r.change_id change_id)) db.change_log;
    },
  )

  unfoldable pub prune_processed_mutations : ℕ → ℕ → M Raw (Unit {0})
  prune_processed_mutations user cutoff = exec backend Query.prune_processed_mutations λ db. (
    ok tt,
    record db {
      processed_mutations =
          select (λ p. not (p.user_id == user && ltb p.created_at cutoff)) db.processed_mutations;
    },
  )
