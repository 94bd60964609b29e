-- ===== src/Sync/Validate.antt =====
-- internal/sync/service.go: the checks on a mutation and on the entity that it carries.
use cubesync.Prelude.{
  ℕ, ◌*◌, String, byte_len, Bool, false, not, ◌&&◌, ◌||◌, Option, none, some, ltb, ◌==◌,
  if◌then◌else◌, pos, ltb_ℤ, str_eq,
}
use cubesync.Sync.Models.{
  Mutation, MutationOutcome, is_accepted, is_rejected, Session, Solve, Codec,
}

-- 24 hours
abbrev pub max_solve_duration_ms : ℕ
max_solve_duration_ms = 24 * 60 * 60 * 1000

-- Go's zero time, the start of the year 1, as nanoseconds since the start of the leap year 0.
abbrev pub zero_time : ℕ
zero_time = 31622400000000000

abbrev pub nil_uuid : ℕ
nil_uuid = 0

abbrev pub ends_before : Option ℕ → ℕ → Bool
ends_before none t = false
ends_before (some e) t = ltb e t

-- the default timing device
abbrev pub or_keyboard : String → String
or_keyboard device = if str_eq device "" then "keyboard" else device

module _ {Raw : Type 0} where
  unfoldable pub accepted : ℕ → ℕ → MutationOutcome Raw
  accepted id version = record {
    mutation_id = id;
    status = is_accepted;
    version = version;
    code = "";
    message = "";
    current = none;
  }

  unfoldable pub rejected : ℕ → String → String → MutationOutcome Raw
  rejected id code message = record {
    mutation_id = id;
    status = is_rejected;
    version = 0;
    code = code;
    message = message;
    current = none;
  }

  -- The first check that fails, as the outcome to return.
  unfoldable pub validate_mutation_envelope : Mutation Raw → Option (MutationOutcome Raw)
  unfolding rejected
  validate_mutation_envelope m =
      if m.id == nil_uuid
      then some (rejected m.id "invalid_mutation_id" "mutation id is required")
      else if m.entity_id == nil_uuid
      then some (rejected m.id "invalid_entity_id" "entity id is required")
      else if ltb_ℤ m.base_version (pos 0)
      then some (rejected m.id "invalid_version" "base_version cannot be negative")
      else if not (str_eq m.operation "upsert") && not (str_eq m.operation "delete")
      then some (rejected m.id "invalid_operation" "operation must be upsert or delete")
      else none

  module _ (codec : Codec Raw) where
    unfoldable pub valid_event : String → Bool
    valid_event value =
        let event = codec.to_lower value in
        str_eq event "2x2"
        || str_eq event "3x3"
        || str_eq event "4x4"
        || str_eq event "5x5"
        || str_eq event "megaminx"
        || str_eq event "pyraminx"

    -- The message of the first check that fails.
    unfoldable pub validate_session : Session → ℕ → Option String
    unfolding valid_event
    validate_session value expected =
        if not (value.id == expected)
        then some "data.id must match entity_id"
        else if ltb 120 (byte_len value.name)
        then some "name is too long"
        else if not (valid_event value.event)
        then some "event is not supported"
        else if not (str_eq value.kind "manual") && not (str_eq value.kind "automatic")
        then some "kind must be manual or automatic"
        else if value.started_at == zero_time
        then some "started_at is required"
        else if ends_before value.ended_at value.started_at
        then some "ended_at cannot be before started_at"
        else none

    unfoldable pub validate_solve : Solve → ℕ → Option String
    unfolding valid_event
    validate_solve value expected =
        if not (value.id == expected)
        then some "data.id must match entity_id"
        else if ltb_ℤ value.duration_ms (pos 0)
            || ltb_ℤ (pos max_solve_duration_ms) value.duration_ms
        then some "duration_ms is outside the supported range"
        else if not (str_eq value.penalty "none")
            && not (str_eq value.penalty "plus_two")
            && not (str_eq value.penalty "dnf")
        then some "penalty must be none, plus_two, or dnf"
        else if value.solved_at == zero_time
        then some "solved_at is required"
        else if ltb 4096 (byte_len value.scramble)
        then some "scramble is too long"
        else if not (valid_event value.event)
        then some "event is not supported"
        else if not (str_eq (or_keyboard value.timing_device) "keyboard")
            && not (str_eq (or_keyboard value.timing_device) "external_timer")
            && not (str_eq (or_keyboard value.timing_device) "smart_cube")
        then some "timing_device must be keyboard, external_timer, or smart_cube"
        else none
