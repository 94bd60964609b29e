-- ===== src/Sync/Examples.antt =====
-- A user with one device, small requests, and a codec for documents.
use cubesync.Prelude.{
  ℕ, ◌*◌, ◌≡◌, ap, sym, String, Bool, true, false, Option, none, some, some_inj, refl, [], ◌∷◌, pos,
}
use cubesync.Store.{Db, User, Device, CubeSession, ChangeLog, Backend, Conn, Query}
use cubesync.Sync.Models.{
  SyncDevice, Mutation, Request, Session, Solve, Status, MutationOutcome, Codec, DeleteStub,
  ConflictStub,
}
use cubesync.Sync.Service.{Service}
use cubesync.Sync.Replay.{stored_document, ReadsBack}

-- Documents, one constructor for each type that is marshaled.
pub data Doc : Type 0 where
  session_doc : Session → Doc
  solve_doc : Solve → Doc
  outcome_doc : ℕ → Status → ℕ → String → String → Doc
  deleted_doc : DeleteStub → Doc
  conflict_doc : ConflictStub → Doc
  -- an outcome with a document in it, and a document with spaces in its text
  with_current : Doc → Doc → Doc
  spaced : Doc → Doc

-- The text that jsonb keeps of a document.
abbrev normal : Doc → Doc
normal (session_doc s) = session_doc s
normal (solve_doc s) = solve_doc s
normal (outcome_doc id status version code message) = outcome_doc id status version code message
normal (deleted_doc s) = deleted_doc s
normal (conflict_doc s) = conflict_doc s
normal (with_current d current) = with_current (normal d) (normal current)
normal (spaced d) = normal d

abbrev parse_session : Doc → Option Session
parse_session (session_doc s) = some s
parse_session _ = none

abbrev parse_solve : Doc → Option Solve
parse_solve (solve_doc s) = some s
parse_solve _ = none

abbrev with_document : Option Doc → Option (MutationOutcome Doc) → Option (MutationOutcome Doc)
with_document current none = none
with_document current (some o) = some (record o { current = current })

abbrev parse_outcome : Doc → Option (MutationOutcome Doc)
parse_outcome (outcome_doc id status version code message) = some record {
  mutation_id = id;
  status = status;
  version = version;
  code = code;
  message = message;
  current = none;
}
parse_outcome (with_current d current) = with_document (some current) (parse_outcome d)
parse_outcome _ = none

abbrev parse_deleted_at : Doc → Option (Option ℕ)
parse_deleted_at (session_doc s) = some s.deleted_at
parse_deleted_at (solve_doc s) = some s.deleted_at
parse_deleted_at _ = none

abbrev print_with : MutationOutcome Doc → Option Doc → Option Doc
print_with o none = some (outcome_doc o.mutation_id o.status o.version o.code o.message)
print_with o (some raw) =
    some (with_current (outcome_doc o.mutation_id o.status o.version o.code o.message) raw)

abbrev pub doc_codec : Codec Doc
doc_codec = record {
  unmarshal_session = parse_session;
  unmarshal_solve = parse_solve;
  unmarshal_outcome = parse_outcome;
  unmarshal_deleted_at = parse_deleted_at;
  marshal_session = λ s. some (session_doc s);
  marshal_solve = λ s. some (solve_doc s);
  marshal_outcome = λ o. print_with o o.current;
  marshal_delete_stub = λ s. some (deleted_doc s);
  marshal_conflict_stub = λ s. some (spaced (conflict_doc s));
  size = λ d. 100;
  to_lower = λ t. t;
  at_most = λ n. "too many mutations";
  uuid_text = λ n. "user";
}

-- 200 days after the start of the model's time
abbrev present : ℕ
present = 200 * 24 * 60 * 60 * 1000000000

abbrev pub server : Backend Doc
server = record { now = present; jsonb = normal; lower = λ t. t; fault = λ q db. false }

pub server-ReadsBack : (o : MutationOutcome Doc) → ReadsBack doc_codec server o
server-ReadsBack o raw h = read o.current refl h
  where
    read :
        (current : Option Doc)
        → o.current ≡ current
        → print_with o current ≡ some raw
        → parse_outcome (normal raw)
          ≡ some (record o { current = stored_document doc_codec server current })
    read none e h = ap (λ d. parse_outcome (normal d)) (some_inj (sym h))
    read (some d) e h = ap (λ d. parse_outcome (normal d)) (some_inj (sym h))

abbrev appends : Query → Bool
appends Query.append_change = true
appends _ = false

-- A server on which no change can be appended.
abbrev pub full_server : Backend Doc
full_server = record { now = present; jsonb = λ d. d; lower = λ t. t; fault = λ q db. appends q }

abbrev pub service : Service
service = record {
  max_mutations = 100;
  default_max_change = 500;
  max_response_bytes = 250;
  inactive_device_window = pos 0;
}

abbrev pub phone : SyncDevice
phone = record { id = 3; name = "phone"; platform = "ios" }

abbrev phone_row : Device
phone_row = record {
  id = 3;
  user_id = 7;
  name = "phone";
  platform = "ios";
  first_seen_at = 0;
  last_seen_at = present;
  last_ack_cursor = 2;
}

abbrev pub change_at : ℕ → ChangeLog Doc
change_at n = record {
  change_id = n;
  user_id = 7;
  entity_type = "session";
  entity_id = 40;
  operation = "upsert";
  version = n;
  payload = outcome_doc 0 Status.no_status 0 "" "";
  created_at = 0;
}

abbrev owner : User
owner = record {
  id = 7;
  email = "ada@example.org";
  email_verified_at = some 0;
  created_at = 0;
  updated_at = 0;
  user_role = "user";
}

abbrev pub tables : Db Doc
tables = record {
  users = owner ∷ [];
  password_credentials = [];
  identities = [];
  refresh_tokens = [];
  one_time_tokens = [];
  devices = phone_row ∷ [];
  cube_sessions = [];
  solves = [];
  processed_mutations = [];
  change_log = change_at 1 ∷ change_at 2 ∷ change_at 3 ∷ [];
  last_change_id = 3;
}

abbrev pub on_pool : Conn Doc
on_pool = record { db = tables; in_tx = false; aborted = false }

abbrev pub in_transaction : Conn Doc
in_transaction = record { db = tables; in_tx = true; aborted = false }

abbrev morning : Session
morning = record {
  id = 21;
  name = "morning";
  event = "3x3";
  kind = "manual";
  started_at = 5;
  ended_at = none;
  archived = false;
  version = pos 0;
  updated_at = 0;
  deleted_at = none;
}

abbrev pub create_session : Mutation Doc
create_session = record {
  id = 11;
  entity = "session";
  entity_id = 21;
  operation = "upsert";
  base_version = pos 0;
  payload = session_doc morning;
}

abbrev pub push_request : Request Doc
push_request = record {
  cursor = pos 0;
  device = phone;
  mutations = create_session ∷ [];
  limit = pos 10;
}

abbrev pub orphan : Solve
orphan = record {
  id = 22;
  session_id = some 99;
  duration_ms = pos 9000;
  penalty = "none";
  solved_at = 5;
  scramble = "R U";
  event = "3x3";
  timing_device = "";
  version = pos 0;
  updated_at = 0;
  deleted_at = none;
}

abbrev pub create_orphan : Mutation Doc
create_orphan = record {
  id = 12;
  entity = "solve";
  entity_id = 22;
  operation = "upsert";
  base_version = pos 0;
  payload = solve_doc orphan;
}

abbrev pub morning_row : CubeSession
morning_row = record {
  id = 21;
  user_id = 7;
  name = "morning";
  event = "3x3";
  kind = "manual";
  started_at = 5;
  ended_at = none;
  archived = false;
  version = 2;
  updated_at = 6;
  deleted_at = none;
}

abbrev pub with_morning : Conn Doc
with_morning = record in_transaction { db = record tables { cube_sessions = morning_row ∷ [] } }
