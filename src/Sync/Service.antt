-- ===== src/Sync/Service.antt =====
-- internal/sync/service.go: Sync and pullOnly, and internal/sync/window.go.
use cubesync.Prelude.{
  ℕ, ◌-◌, ◌*◌, String, byte_len, Bool, true, false, ◌&&◌, ◌||◌, Option, none, some, List, [], ◌∷◌,
  ◌++◌, map, ltb, leb, ◌==◌, if◌then◌else◌, ℤ, pos, ltb_ℤ, leb_ℤ, pos_part, str_eq, length,
}
use cubesync.Store.{Error, client_error, Backend, M, pure, raise, ignore, transaction, ◌>>=◌, ◌>>◌}
use cubesync.Store.Queries.{
  acquire_advisory_lock, upsert_device, min_valid_cursor, update_device_ack_cursor,
}
use cubesync.Sync.Models.{
  Mutation, MutationOutcome, no_status, Request, Response, SyncDevice, Codec,
}
use cubesync.Sync.Validate.{nil_uuid}
use cubesync.Sync.Lock.{advisory_lock_key}
use cubesync.Sync.Pages.{read_page}
use cubesync.Sync.Apply.{apply_mutation}

pub record Service : Type 0 where
  pub max_mutations : ℕ
  pub default_max_change : ℕ
  pub max_response_bytes : ℕ
  pub inactive_device_window : ℤ

-- 90 days, in nanoseconds
abbrev pub default_inactive_device_window : ℕ
default_inactive_device_window = 90 * 24 * 60 * 60 * 1000000000

unfoldable pub effective_inactive_window : ℤ → ℕ
effective_inactive_window d = if leb_ℤ d (pos 0) then default_inactive_device_window else pos_part d

-- The ordering of one user's mutations: entityRank, then the bytes of the id.
unfoldable pub entity_rank : String → ℕ
entity_rank entity = if str_eq entity "session" then 0 else if str_eq entity "solve" then 1 else 2

abbrev pub seen : ℕ → List ℕ → Bool
seen id [] = false
seen id (j ∷ js) = if id == j then true else seen id js

unfoldable pub effective_limit : Service → ℤ → ℕ
effective_limit s limit =
    if leb_ℤ limit (pos 0) || ltb_ℤ (pos s.default_max_change) limit
    then s.default_max_change
    else pos_part limit

module _ {Raw : Type 0} where
  -- the comparison is negative or zero
  unfoldable pub not_after : Mutation Raw → Mutation Raw → Bool
  not_after a b =
      if entity_rank a.entity == entity_rank b.entity
      then leb a.entity_id b.entity_id
      else ltb (entity_rank a.entity) (entity_rank b.entity)

  unfoldable pub insert_mutation : Mutation Raw → List (Mutation Raw) → List (Mutation Raw)
  insert_mutation m [] = m ∷ []
  insert_mutation m (n ∷ ms) = if not_after m n then m ∷ n ∷ ms else n ∷ insert_mutation m ms

  -- slices.SortStableFunc: the one stable arrangement.
  unfoldable pub sort_mutations : List (Mutation Raw) → List (Mutation Raw)
  sort_mutations [] = []
  sort_mutations (m ∷ ms) = insert_mutation m (sort_mutations ms)

  -- The loop over the mutations' ids.
  unfoldable pub check_ids : List ℕ → List (Mutation Raw) → Option Error
  check_ids ids [] = none
  check_ids ids (m ∷ ms) =
      let rest = check_ids (m.id ∷ ids) ms in
      if m.id == nil_uuid
      then some (client_error "invalid_mutation_id" "every mutation id must be a non-zero UUID")
      else if seen m.id ids
      then some
          (client_error "duplicate_mutation_id" "mutation ids must be unique within a request")
      else rest

  -- The checks that read no table.
  unfoldable pub check_request : Service → Codec Raw → Request Raw → Option Error
  unfolding check_ids
  check_request s codec req =
      if ltb_ℤ req.cursor (pos 0)
      then some (client_error "invalid_cursor" "cursor cannot be negative")
      else if req.device.id == nil_uuid
      then some (client_error "invalid_device" "device.id is required")
      else if ltb 120 (byte_len req.device.name) || ltb 40 (byte_len req.device.platform)
      then some (client_error "invalid_device" "device metadata is too long")
      else if ltb s.max_mutations (length req.mutations)
      then some (client_error "too_many_mutations" (codec.at_most s.max_mutations))
      else check_ids [] req.mutations

  unfoldable pub raise_some : Option Error → M Raw (Unit {0})
  raise_some none = pure tt
  raise_some (some e) = raise e

  -- `outcomeByID`, the newest entry first, and the zero value of a missing key.
  abbrev pub zero_outcome : MutationOutcome Raw
  zero_outcome = record {
    mutation_id = nil_uuid;
    status = no_status;
    version = 0;
    code = "";
    message = "";
    current = none;
  }

  unfoldable pub outcome_by_id : ℕ → List (ℕ × MutationOutcome Raw) → MutationOutcome Raw
  outcome_by_id id [] = zero_outcome
  outcome_by_id id ((j, o) ∷ os) = if id == j then o else outcome_by_id id os

module _ {Raw : Type 0} (s : Service) (codec : Codec Raw) (backend : Backend Raw) (user : ℕ) where
  unfoldable pub cutoff : ℕ
  unfolding effective_inactive_window
  cutoff = backend.now - effective_inactive_window s.inactive_device_window

  unfoldable pub expired : ℤ → ℕ → M Raw (Unit {0})
  expired cursor least =
      if ltb 0 least && ltb_ℤ cursor (pos least)
      then raise
          (client_error "cursor_expired" "your sync cursor has expired; perform a full resync")
      else pure tt

  unfoldable pub check_cursor_not_expired : ℤ → M Raw (Unit {0})
  check_cursor_not_expired cursor =
      if leb_ℤ cursor (pos 0)
      then pure tt
      else min_valid_cursor backend user cutoff >>= expired cursor

  module _ (device : SyncDevice) (proto : ℕ) where
    unfoldable pub apply_mutations : List (Mutation Raw) → M Raw (List (ℕ × MutationOutcome Raw))
    apply_mutations [] = pure []
    apply_mutations (m ∷ ms) = do
      outcome ← apply_mutation codec backend user m proto device.id
      rest ← apply_mutations ms
      pure (rest ++ (m.id, outcome) ∷ [])

    abbrev pub in_request_order :
        List (Mutation Raw) → List (ℕ × MutationOutcome Raw) → List (MutationOutcome Raw)
    in_request_order ms table = map (λ m. outcome_by_id m.id table) ms

    module _ (req : Request Raw) where
      -- What the transaction does, up to the commit.
      unfoldable pub push_and_read : ℕ → M Raw (Response Raw)
      push_and_read limit = do
        acquire_advisory_lock backend (advisory_lock_key (codec.uuid_text user ∷ "sync" ∷ []))
        upsert_device backend device.id user device.name device.platform
        table ← apply_mutations (sort_mutations req.mutations)
        page ← read_page codec backend s.max_response_bytes user proto limit req.cursor
        pure (record {
          outcomes = in_request_order req.mutations table;
          changes = page.changes;
          next_cursor = page.next_cursor;
          has_more = page.has_more;
        })

      -- The acknowledgement, whose error is thrown away.
      unfoldable pub acknowledge : M Raw (Unit {0})
      acknowledge =
          if ltb_ℤ (pos 0) req.cursor
          then ignore (update_device_ack_cursor backend user device.id req.cursor)
          else pure tt

      unfoldable pub push : ℕ → M Raw (Response Raw)
      push limit = do
        response ← transaction backend (push_and_read limit)
        acknowledge
        pure response

      unfoldable pub pull_only : ℕ → M Raw (Response Raw)
      pull_only limit = do
        upsert_device backend device.id user device.name device.platform
        page ← read_page codec backend s.max_response_bytes user proto limit req.cursor
        acknowledge
        pure (record {
          outcomes = [];
          changes = page.changes;
          next_cursor = page.next_cursor;
          has_more = page.has_more;
        })

      unfoldable pub push_or_pull : List (Mutation Raw) → ℕ → M Raw (Response Raw)
      push_or_pull [] limit = pull_only limit
      push_or_pull (m ∷ ms) limit = push limit

  unfoldable pub sync : Request Raw → ℕ → M Raw (Response Raw)
  sync req proto = do
    raise_some (check_request s codec req)
    check_cursor_not_expired req.cursor
    push_or_pull req.device proto req req.mutations (effective_limit s req.limit)
