-- ===== src/Statistics/Tests.antt =====
-- An example: five solves, one of them DNF.
use cubesync.Prelude.{
  ℕ, ◌+◌, ◌<◌, ◌≤◌, ◌≡◌, refl, ◌↔◌, false, true, none, some, List, [], ◌∷◌, arith, length, select,
  take,
}
use cubesync.Store.{Solf, Backend, Conn, ok}
use cubesync.Statistics.{mean, trimmed, trim_count, max_int64, compute_aon_from_times}
use cubesync.Statistics.Sorting.{count}
use cubesync.Statistics.Averages.{compute_aon_from_times-dnf}
use cubesync.Statistics.Service.{Aggregates, is_dnf, insert_recent, order_recent, compute_aon}
use cubesync.Statistics.Recent.{recent_solves, times_of, compute_aon-dnf}

abbrev times : List ℕ
times = 12000 ∷ max_int64 ∷ 9000 ∷ 15000 ∷ 11000 ∷ []

compute_aon_from_times-dnf_example :
    ((compute_aon_from_times times 5 ≡ some (none, true))
      ↔ (trim_count 5 < count max_int64 (take 5 times)))
    × (count max_int64 (take 5 times) ≤ trim_count 5
        → compute_aon_from_times times 5 ≡ some (some (mean (trimmed 5 times)), false))
compute_aon_from_times-dnf_example =
    compute_aon_from_times-dnf times 5 (omega arith) (omega arith)
      (omega arith, (omega arith, (omega arith, (omega arith, (omega arith, tt)))))

abbrev solve_at : ℕ → Solf
solve_at n = record {
  id = n;
  user_id = 7;
  session_id = none;
  duration_ms = 9000 + n;
  penalty = "none";
  solved_at = n;
  scramble = "R U";
  event = "3x3";
  version = 1;
  updated_at = n;
  deleted_at = none;
  timing_device = "keyboard";
}

abbrev server : Backend ℕ
server = record { now = 1000; jsonb = λ d. d; lower = λ t. t; fault = λ q db. false }

abbrev pool : Conn ℕ
pool = record {
  db = record {
    users = [];
    password_credentials = [];
    identities = [];
    refresh_tokens = [];
    one_time_tokens = [];
    devices = [];
    cube_sessions = [];
    solves =
        solve_at 1
        ∷ record (solve_at 2) { penalty = "dnf" }
        ∷ record (solve_at 3) { penalty = "dnf" }
        ∷ solve_at 4
        ∷ record (solve_at 5) { penalty = "plus_two" }
        ∷ [];
    processed_mutations = [];
    change_log = [];
    last_change_id = 0;
  };
  in_tx = false;
  aborted = false;
}

abbrev no_means : Aggregates ℕ
no_means = record { avg = length; stddev_pop = length }

compute_aon-dnf_example :
    (trim_count 5 < length (select is_dnf (recent_solves 7 "" 5 pool.db))
      → compute_aon no_means server 7 "" 5 pool ≡ (ok (none, true), pool))
    × (length (select is_dnf (recent_solves 7 "" 5 pool.db)) ≤ trim_count 5
        → compute_aon no_means server 7 "" 5 pool
          ≡ (ok (some (mean (trimmed 5 (times_of (recent_solves 7 "" 5 pool.db)))), false), pool))
unfolding order_recent insert_recent
compute_aon-dnf_example =
    compute_aon-dnf no_means server 7 "" 5 pool (record { works = λ q db. refl }) refl (omega arith)
      refl (omega arith, (omega arith, (omega arith, (omega arith, (omega arith, tt)))))
