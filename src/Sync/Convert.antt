-- ===== src/Sync/Convert.antt =====
-- internal/sync/service.go: conversions between rows, entities and outcomes, and the log entry.
use cubesync.Prelude.{ℕ, String, Option, none, some, leb, if◌then◌else◌, pos}
use cubesync.Prelude.{pos_part}
use cubesync.Store.{CubeSession, Solf, failed, Backend, M, pure, raise, ◌>>=◌}
use cubesync.Store.Queries.{append_change}
use cubesync.Store.Entities.{SessionParams, SolveParams}
use cubesync.Sync.Models.{MutationOutcome, is_conflict, Session, Solve, Codec}
use cubesync.Sync.Validate.{or_keyboard}

unfoldable pub session_from_db : CubeSession → Session
session_from_db row = record {
  id = row.id;
  name = row.name;
  event = row.event;
  kind = row.kind;
  started_at = row.started_at;
  ended_at = row.ended_at;
  archived = row.archived;
  version = pos row.version;
  updated_at = row.updated_at;
  deleted_at = row.deleted_at;
}

unfoldable pub solve_from_db : Solf → Solve
solve_from_db row = record {
  id = row.id;
  session_id = row.session_id;
  duration_ms = pos row.duration_ms;
  penalty = row.penalty;
  solved_at = row.solved_at;
  scramble = row.scramble;
  event = row.event;
  timing_device = row.timing_device;
  version = pos row.version;
  updated_at = row.updated_at;
  deleted_at = row.deleted_at;
}

-- The columns that a validated entity sets.
abbrev pub session_params : Session → SessionParams
session_params input = record {
  id = input.id;
  name = input.name;
  event = input.event;
  kind = input.kind;
  started_at = input.started_at;
  ended_at = input.ended_at;
  archived = input.archived;
}

-- The duration is not negative once validated; an empty timing device becomes the keyboard.
abbrev pub solve_params : Solve → SolveParams
solve_params input = record {
  id = input.id;
  session_id = input.session_id;
  duration_ms = pos_part input.duration_ms;
  penalty = input.penalty;
  solved_at = input.solved_at;
  scramble = input.scramble;
  event = input.event;
  timing_device = or_keyboard input.timing_device;
}

module _ {Raw : Type 0} (codec : Codec Raw) where
  -- The slim payload from protocol 2 on, the whole entity before.
  unfoldable pub session_conflict : ℕ → CubeSession → ℕ → MutationOutcome Raw
  unfolding session_from_db
  session_conflict mutation current proto = record {
    mutation_id = mutation;
    status = is_conflict;
    version = current.version;
    code = "";
    message = "";
    current =
        if leb 2 proto
        then codec.marshal_conflict_stub
            (record { id = current.id; version = current.version; updated_at = current.updated_at })
        else codec.marshal_session (session_from_db current);
  }

  unfoldable pub solve_conflict : ℕ → Solf → ℕ → MutationOutcome Raw
  unfolding solve_from_db
  solve_conflict mutation current proto = record {
    mutation_id = mutation;
    status = is_conflict;
    version = current.version;
    code = "";
    message = "";
    current =
        if leb 2 proto
        then codec.marshal_conflict_stub
            (record { id = current.id; version = current.version; updated_at = current.updated_at })
        else codec.marshal_solve (solve_from_db current);
  }

module _ {Raw : Type 0} where
  -- The value of a call of json.Marshal or json.Unmarshal, whose error the caller returns.
  unfoldable pub or_fail : {A : Type 0} → Option A → M Raw A
  or_fail none = raise failed
  or_fail (some a) = pure a

  unfoldable pub or_outcome :
      Option (MutationOutcome Raw) → M Raw (MutationOutcome Raw) → M Raw (MutationOutcome Raw)
  or_outcome (some outcome) rest = pure outcome
  or_outcome none rest = rest

module _ {Raw : Type 0} (codec : Codec Raw) (backend : Backend Raw) (user : ℕ) where
  unfoldable pub append_session_change : String → CubeSession → M Raw ℕ
  unfolding session_from_db
  append_session_change operation row = do
    payload ← or_fail (codec.marshal_session (session_from_db row))
    append_change backend user "session" row.id operation row.version payload

  unfoldable pub append_solve_change : String → Solf → M Raw ℕ
  unfolding solve_from_db
  append_solve_change operation row = do
    payload ← or_fail (codec.marshal_solve (solve_from_db row))
    append_change backend user "solve" row.id operation row.version payload
