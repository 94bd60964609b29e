-- ===== src/Snapshot.antt =====
-- internal/sync/snapshot.go: the pages of a bootstrap.
pub mod Page
pub mod Tests
use cubesync.Prelude.{
  ℕ, ◌+◌, String, Bool, true, false, not, ◌&&◌, ◌||◌, Option, none, some, List, [], ◌∷◌, map, ltb,
  leb, ◌==◌, if◌then◌else◌, ℤ, pos, leb_ℤ, ltb_ℤ, pos_part, str_eq, length, take,
}
use cubesync.Store.{CubeSession, Solf, client_error, Backend, M, pure, raise, ◌>>=◌, ◌>>◌}
use cubesync.Store.Queries.{to_int32, upsert_device}
use cubesync.Store.Keyset.{snapshot_sessions_keyset, snapshot_solves_keyset, latest_change_cursor}
use cubesync.Sync.{SyncDevice, Session, Solve, Codec}
use cubesync.Sync.Validate.{nil_uuid}
use cubesync.Sync.Convert.{session_from_db, solve_from_db}

abbrev pub default_snapshot_page_size : ℕ
default_snapshot_page_size = 500

abbrev pub max_snapshot_page_size : ℕ
max_snapshot_page_size = 2000

-- The estimate of the JSON bytes around an entity.
abbrev pub entity_envelope_overhead : ℕ
entity_envelope_overhead = 120

pub record SnapshotRequest : Type 0 where
  pub device : SyncDevice
  pub cursor : ℤ
  pub after_id : ℕ
  pub entity : String
  pub page_size : ℤ

pub record SnapshotResponse : Type 0 where
  pub sessions : List Session
  pub solves : List Solve
  pub cursor : ℤ
  pub has_more : Bool
  pub next_entity : String
  pub next_after_id : ℕ

-- `pageSize`, with the default for a size out of range.
unfoldable pub effective_page_size : ℤ → ℕ
effective_page_size size =
    if leb_ℤ size (pos 0) || ltb_ℤ (pos max_snapshot_page_size) size
    then default_snapshot_page_size
    else pos_part size

module _ {Raw E : Type 0} (size : Raw → ℕ) (marshal : E → Option Raw) where
  abbrev on_marshal : Option Raw → (Raw → ℕ) → ℕ → ℕ
  on_marshal none f skipped = skipped
  on_marshal (some raw) f skipped = f raw

  -- An entity that is not marshaled is passed over (`continue`); the loop ends at the first that
  -- goes beyond the budget (`break`), if it is not the first of all. The result is `keep`.
  unfoldable pub trim_loop : ℕ → ℕ → ℕ → ℕ → List E → ℕ
  trim_loop budget total keep i [] = keep
  trim_loop budget total keep i (e ∷ es) =
      let skipped = trim_loop budget total keep (i + 1) es in
      on_marshal (marshal e)
        (λ raw.
          let total' = total + (size raw + entity_envelope_overhead) in
          let rest = trim_loop budget total' (i + 1) (i + 1) es in
          if ltb budget total' && ltb 0 i then keep else rest)
        skipped

  -- trimSessionsByBytes and trimSolvesByBytes, which differ in the type alone.
  unfoldable pub trim_by_bytes : List E → ℕ → List E × Bool
  unfolding trim_loop
  trim_by_bytes es budget =
      if budget == 0 || leb (length es) 1
      then (es, false)
      else let keep = trim_loop budget 0 0 0 es in (take keep es, ltb keep (length es))

  -- The entities of a page, and whether there are more, from the rows of `page_size + 1`.
  unfoldable pub fit_page : {Row : Type 0} → (Row → E) → ℕ → ℕ → List Row → List E × Bool
  unfolding trim_by_bytes
  fit_page convert budget page_size rows =
      let has_more = ltb page_size (length rows) in
      let shown = if has_more then take page_size rows else rows in
      let (kept, trimmed) = trim_by_bytes (map convert shown) budget in
      if ltb 0 budget then (kept, has_more || trimmed) else (map convert shown, has_more)

-- The id of the last entity, or the nil uuid.
abbrev pub last_id : {E : Type 0} → (E → ℕ) → ℕ → List E → ℕ
last_id id_of last [] = last
last_id id_of last (e ∷ es) = last_id id_of (id_of e) es

abbrev pub session_response : ℤ → List Session × Bool → SnapshotResponse
session_response cursor (sessions, has_more) = record {
  sessions = sessions;
  solves = [];
  cursor = cursor;
  has_more = has_more;
  next_entity = if has_more then "session" else "solve";
  next_after_id = if has_more then last_id (λ e. e.id) nil_uuid sessions else nil_uuid;
}

abbrev pub solve_response : ℤ → List Solve × Bool → SnapshotResponse
solve_response cursor (solves, has_more) = record {
  sessions = [];
  solves = solves;
  cursor = cursor;
  has_more = has_more;
  next_entity = if has_more then "solve" else "";
  next_after_id = if has_more then last_id (λ e. e.id) nil_uuid solves else nil_uuid;
}

module _ {Raw : Type 0} (max_response_bytes : ℕ) (codec : Codec Raw) (backend : Backend Raw)
    (user : ℕ) where
  unfoldable pub snapshot_sessions : ℕ → ℤ → ℕ → M Raw SnapshotResponse
  unfolding fit_page
  snapshot_sessions after cursor page_size = do
    rows ← snapshot_sessions_keyset backend user after (to_int32 (page_size + 1))
    pure (
        session_response cursor (
          fit_page codec.size codec.marshal_session session_from_db max_response_bytes page_size
            rows))

  unfoldable pub snapshot_solves : ℕ → ℤ → ℕ → M Raw SnapshotResponse
  unfolding fit_page
  snapshot_solves after cursor page_size = do
    rows ← snapshot_solves_keyset backend user after (to_int32 (page_size + 1))
    pure (
        solve_response cursor
          (fit_page codec.size codec.marshal_solve solve_from_db max_response_bytes page_size rows))

  -- The watermark, read for the first page alone.
  unfoldable pub snapshot_cursor : ℤ → ℕ → String → M Raw ℤ
  snapshot_cursor cursor after entity =
      if leb_ℤ cursor (pos 0) && (after == nil_uuid && str_eq entity "session")
      then latest_change_cursor backend user >>= (λ n. pure (pos n))
      else pure cursor

  unfoldable pub snapshot_page : String → ℕ → ℕ → ℤ → M Raw SnapshotResponse
  snapshot_page entity after page_size cursor =
      if str_eq entity "session"
      then snapshot_sessions after cursor page_size
      else snapshot_solves after cursor page_size

  -- The request, its entity named.
  unfoldable pub snapshot_entity : SnapshotRequest → String → M Raw SnapshotResponse
  snapshot_entity req entity = do
    upsert_device backend req.device.id user req.device.name req.device.platform
    cursor ← snapshot_cursor req.cursor req.after_id entity
    snapshot_page entity req.after_id (effective_page_size req.page_size) cursor

  unfoldable pub snapshot : SnapshotRequest → M Raw SnapshotResponse
  snapshot req =
      if req.device.id == nil_uuid
      then raise (client_error "invalid_device" "device.id is required")
      else if not (str_eq req.entity "session")
          && (not (str_eq req.entity "solve") && not (str_eq req.entity ""))
      then raise (client_error "invalid_entity" "entity must be \"session\" or \"solve\"")
      else snapshot_entity req (if str_eq req.entity "" then "session" else req.entity)
