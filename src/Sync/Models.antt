-- ===== src/Sync/Models.antt =====
-- internal/sync/models.go, and encoding/json as the service uses it. `Raw` is json.RawMessage.
use cubesync.Prelude.{ℕ, String, Bool, Option, List, ℤ}

pub record SyncDevice : Type 0 where
  pub id : ℕ
  pub name : String
  pub platform : String

pub record Mutation (Raw : Type 0) : Type 0 where
  pub id : ℕ
  pub entity : String
  pub entity_id : ℕ
  pub operation : String
  pub base_version : ℤ
  pub payload : Raw

pub record Request (Raw : Type 0) : Type 0 where
  pub cursor : ℤ
  pub device : SyncDevice
  pub mutations : List (Mutation Raw)
  pub limit : ℤ

pub record Session : Type 0 where
  pub id : ℕ
  pub name : String
  pub event : String
  pub kind : String
  pub started_at : ℕ
  pub ended_at : Option ℕ
  pub archived : Bool
  pub version : ℤ
  pub updated_at : ℕ
  pub deleted_at : Option ℕ

pub record Solve : Type 0 where
  pub id : ℕ
  pub session_id : Option ℕ
  pub duration_ms : ℤ
  pub penalty : String
  pub solved_at : ℕ
  pub scramble : String
  pub event : String
  pub timing_device : String
  pub version : ℤ
  pub updated_at : ℕ
  pub deleted_at : Option ℕ

-- The values of MutationOutcome.Status; the last is the empty text of a zero value.
pub data Status : Type 0 where
  is_accepted is_rejected is_conflict no_status : Status

pub record MutationOutcome (Raw : Type 0) : Type 0 where
  pub mutation_id : ℕ
  pub status : Status
  pub version : ℕ
  pub code : String
  pub message : String
  pub current : Option Raw

pub record Change (Raw : Type 0) : Type 0 where
  pub cursor : ℕ
  pub entity : String
  pub entity_id : ℕ
  pub operation : String
  pub version : ℕ
  pub payload : Raw
  pub changed_at : ℕ

pub record Response (Raw : Type 0) : Type 0 where
  pub outcomes : List (MutationOutcome Raw)
  pub changes : List (Change Raw)
  pub next_cursor : ℤ
  pub has_more : Bool

pub record DeleteStub : Type 0 where
  pub id : ℕ
  pub version : ℕ
  pub deleted_at : Option ℕ

pub record ConflictStub : Type 0 where
  pub id : ℕ
  pub version : ℕ
  pub updated_at : ℕ

-- encoding/json on the types above, strings.ToLower, fmt.Sprintf of "at most %d mutations are
-- allowed", and the text of a uuid. `none` is an error.
pub record Codec (Raw : Type 0) : Type 0 where
  pub unmarshal_session : Raw → Option Session
  pub unmarshal_solve : Raw → Option Solve
  pub unmarshal_outcome : Raw → Option (MutationOutcome Raw)
  pub unmarshal_deleted_at : Raw → Option (Option ℕ)
  pub marshal_session : Session → Option Raw
  pub marshal_solve : Solve → Option Raw
  pub marshal_outcome : MutationOutcome Raw → Option Raw
  pub marshal_delete_stub : DeleteStub → Option Raw
  pub marshal_conflict_stub : ConflictStub → Option Raw
  -- len of a document
  pub size : Raw → ℕ
  pub to_lower : String → String
  pub at_most : ℕ → String
  pub uuid_text : ℕ → String
