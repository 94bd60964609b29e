-- ===== src/Store/Tables.antt =====
-- The rows of internal/store/db/models.go, and the tables of db/migrations.
-- A uuid is the number that its sixteen bytes spell, so bytes.Compare is the order of numbers and
-- uuid.Nil is 0. A time is the number of nanoseconds since the start of the year 0, the earliest
-- time that RFC 3339 writes. A jsonb value is of a type that the model leaves open.
use cubesync.Prelude.{ℕ, String, Bool, Option, List}

pub record CubeSession : Type 0 where
  pub id : ℕ
  pub user_id : ℕ
  pub name : String
  pub event : String
  pub kind : String
  pub started_at : ℕ
  pub ended_at : Option ℕ
  pub archived : Bool
  pub version : ℕ
  pub updated_at : ℕ
  pub deleted_at : Option ℕ

-- sqlc's name for a row of the table `solves`
pub record Solf : Type 0 where
  pub id : ℕ
  pub user_id : ℕ
  pub session_id : Option ℕ
  pub duration_ms : ℕ
  pub penalty : String
  pub solved_at : ℕ
  pub scramble : String
  pub event : String
  pub version : ℕ
  pub updated_at : ℕ
  pub deleted_at : Option ℕ
  pub timing_device : String

pub record Device : Type 0 where
  pub id : ℕ
  pub user_id : ℕ
  pub name : String
  pub platform : String
  pub first_seen_at : ℕ
  pub last_seen_at : ℕ
  pub last_ack_cursor : ℕ

pub record ProcessedMutation (Raw : Type 0) : Type 0 where
  pub user_id : ℕ
  pub device_id : ℕ
  pub mutation_id : ℕ
  pub outcome : Raw
  pub created_at : ℕ

pub record ChangeLog (Raw : Type 0) : Type 0 where
  pub change_id : ℕ
  pub user_id : ℕ
  pub entity_type : String
  pub entity_id : ℕ
  pub operation : String
  pub version : ℕ
  pub payload : Raw
  pub created_at : ℕ

pub record User : Type 0 where
  pub id : ℕ
  pub email : String
  pub email_verified_at : Option ℕ
  pub created_at : ℕ
  pub updated_at : ℕ
  pub user_role : String

pub record PasswordCredential : Type 0 where
  pub user_id : ℕ
  pub password_hash : String
  pub updated_at : ℕ

pub record Identity : Type 0 where
  pub id : ℕ
  pub user_id : ℕ
  pub provider : String
  pub subject : String
  pub email : Option String
  pub created_at : ℕ

-- A hash is the number that its bytes spell.
pub record RefreshToken : Type 0 where
  pub id : ℕ
  pub family_id : ℕ
  pub user_id : ℕ
  pub token_hash : ℕ
  pub expires_at : ℕ
  pub used_at : Option ℕ
  pub revoked_at : Option ℕ
  pub created_at : ℕ

pub record OneTimeToken : Type 0 where
  pub id : ℕ
  pub user_id : ℕ
  pub kind : String
  pub token_hash : ℕ
  pub expires_at : ℕ
  pub used_at : Option ℕ
  pub created_at : ℕ

-- The tables that synchronization and the accounts use. `last_change_id` is the sequence behind
-- `change_log.change_id`, a bigserial.
pub record Db (Raw : Type 0) : Type 0 where
  pub users : List User
  pub password_credentials : List PasswordCredential
  pub identities : List Identity
  pub refresh_tokens : List RefreshToken
  pub one_time_tokens : List OneTimeToken
  pub devices : List Device
  pub cube_sessions : List CubeSession
  pub solves : List Solf
  pub processed_mutations : List (ProcessedMutation Raw)
  pub change_log : List (ChangeLog Raw)
  pub last_change_id : ℕ
