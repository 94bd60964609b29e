-- ===== src/Sync/Pages.antt =====
-- internal/sync/service.go: buildChanges, applyByteLimit, and the page that a response carries.
pub mod Ascending
pub mod Exact
use cubesync.Prelude.{
  ℕ, ◌+◌, Bool, true, false, not, ◌&&◌, Option, none, some, List, [], ◌∷◌, ltb, leb, if◌then◌else◌,
  ℤ, pos, str_eq, length, take,
}
use cubesync.Store.{ChangeLog, Backend, M, pure, ◌>>=◌}
use cubesync.Store.Queries.{to_int32, list_changes}
use cubesync.Sync.Models.{Change, Codec}

-- The estimate of the JSON bytes around a payload.
abbrev pub change_envelope_overhead : ℕ
change_envelope_overhead = 200

-- A page of changes with its cursor: the fields `changes`, `has_more`, `next_cursor` of a response.
pub record Page (Raw : Type 0) : Type 0 where
  pub changes : List (Change Raw)
  pub has_more : Bool
  pub next_cursor : ℤ

module _ {Raw : Type 0} (codec : Codec Raw) where
  abbrev or_stored : Raw → Option Raw → Raw
  or_stored stored none = stored
  or_stored stored (some slim) = slim

  abbrev or_nil : Option (Option ℕ) → Option ℕ
  or_nil none = none
  or_nil (some t) = t

  -- The payload of a change: slim for a deletion from protocol 2 on.
  unfoldable pub change_data : ℕ → ChangeLog Raw → Raw
  change_data proto row =
      if leb 2 proto && str_eq row.operation "delete"
      then or_stored row.payload (
          codec.marshal_delete_stub (record {
            id = row.entity_id;
            version = row.version;
            deleted_at = or_nil (codec.unmarshal_deleted_at row.payload);
          }))
      else row.payload

  unfoldable pub change_of : ℕ → ChangeLog Raw → Change Raw
  unfolding change_data
  change_of proto row = record {
    cursor = row.change_id;
    entity = row.entity_type;
    entity_id = row.entity_id;
    operation = row.operation;
    version = row.version;
    payload = change_data proto row;
    changed_at = row.created_at;
  }

  -- The changes, and the cursor of the last row, or `base` if there is none.
  unfoldable pub build_changes : ℕ → List (ChangeLog Raw) → ℤ → List (Change Raw) × ℤ
  build_changes proto [] base = ([], base)
  build_changes proto (row ∷ rows) base =
      let (changes, next) = build_changes proto rows (pos row.change_id) in
      (change_of proto row ∷ changes, next)

  abbrev next_row : List (ChangeLog Raw) → ℤ → ℤ
  next_row [] next = next
  next_row (row ∷ rows) next = pos row.change_id

  abbrev pub rest_rows : List (ChangeLog Raw) → List (ChangeLog Raw)
  rest_rows [] = []
  rest_rows (row ∷ rows) = rows

  -- The loop of applyByteLimit: the changes kept, whether it stopped early, and the cursor.
  -- `first` is `i == 0`.
  unfoldable pub keep_changes :
      ℕ → ℕ → Bool → List (Change Raw) → List (ChangeLog Raw) → ℤ → Page Raw
  keep_changes budget total first [] rows next = record {
    changes = [];
    has_more = false;
    next_cursor = next;
  }
  keep_changes budget total first (change ∷ changes) rows next =
      let total' = total + (codec.size change.payload + change_envelope_overhead) in
      let rest = keep_changes budget total' false changes (rest_rows rows) (next_row rows next) in
      if ltb budget total' && not first
      then record { changes = []; has_more = true; next_cursor = next }
      else record rest { changes = change ∷ rest.changes }

  -- A page that the loop did not cut keeps the flag that it came with.
  unfoldable pub apply_byte_limit :
      ℕ → List (Change Raw) → List (ChangeLog Raw) → ℤ → Bool → Page Raw
  unfolding keep_changes
  apply_byte_limit budget changes rows base has_more =
      let kept = keep_changes budget 0 true changes rows base in
      if kept.has_more
      then kept
      else record { changes = changes; has_more = has_more; next_cursor = kept.next_cursor }

  -- From the rows of `limit + 1` to the page: the extra row only shows that there is more.
  unfoldable pub make_page : ℕ → ℕ → ℕ → ℤ → List (ChangeLog Raw) → Page Raw
  make_page budget proto limit cursor rows =
      let has_more = ltb limit (length rows) in
      let shown = if has_more then take limit rows else rows in
      let (changes, next) = build_changes proto shown cursor in
      if ltb 0 budget
      then apply_byte_limit budget changes shown cursor has_more
      else record { changes = changes; has_more = has_more; next_cursor = next }

  unfoldable pub read_page : Backend Raw → ℕ → ℕ → ℕ → ℕ → ℤ → M Raw (Page Raw)
  read_page backend budget user proto limit cursor = do
    rows ← list_changes backend user cursor (to_int32 (limit + 1))
    pure (make_page budget proto limit cursor rows)
