-- ===== src/Retention/Tests.antt =====
-- An example: a device that has acknowledged two changes of three.
use mathlib.Core.List.{Memᴰ}
use cubesync.Prelude.{ℕ, ◌≡◌, refl, false, [], ◌∷◌, arith, pos}
use cubesync.Store.{Db, Device, ChangeLog, Backend, Conn}
use cubesync.Store.Queries.{after_cursor}
use cubesync.Sync.Service.{effective_inactive_window}
use cubesync.Retention.{run_once}
use cubesync.Retention.Safety.{run_once-keeps_unacknowledged}

abbrev server : Backend ℕ
server = record { now = 1000; jsonb = λ d. d; lower = λ t. t; fault = λ q db. false }

abbrev phone : Device
phone = record {
  id = 3;
  user_id = 7;
  name = "phone";
  platform = "ios";
  first_seen_at = 0;
  last_seen_at = 1000;
  last_ack_cursor = 2;
}

abbrev change_at : ℕ → ChangeLog ℕ
change_at n = record {
  change_id = n;
  user_id = 7;
  entity_type = "session";
  entity_id = 40;
  operation = "upsert";
  version = n;
  payload = 0;
  created_at = 0;
}

abbrev pool : Conn ℕ
pool = record {
  db = record {
    users = [];
    password_credentials = [];
    identities = [];
    refresh_tokens = [];
    one_time_tokens = [];
    devices = phone ∷ [];
    cube_sessions = [];
    solves = [];
    processed_mutations = [];
    change_log = change_at 1 ∷ change_at 2 ∷ change_at 3 ∷ [];
    last_change_id = 3;
  };
  in_tx = false;
  aborted = false;
}

abbrev pruned : Db ℕ
pruned = (run_once server (pos 100) pool).1.db

run_once-keeps_unacknowledged_example :
    (pruned.devices ≡ phone ∷ []) × (after_cursor 7 (pos 2) pruned.change_log ≡ change_at 3 ∷ [])
unfolding effective_inactive_window
run_once-keeps_unacknowledged_example =
    run_once-keeps_unacknowledged server (pos 100) pool phone (Memᴰ.head refl) (omega arith)
