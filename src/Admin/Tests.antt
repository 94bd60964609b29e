-- ===== src/Admin/Tests.antt =====
-- An example: two requests to one route within an hour, one of them slow, and the reports on them.
use mathlib.Core.List.Permᴰ
use cubesync.Prelude.{
  some, ◌++◌, ℕ, suc, ◌+◌, ◌*◌, ◌≤◌, ◌≡◌, ◌↔◌, refl, String, true, false, none, List, [], ◌∷◌, pos,
  pos_part, arith,
}
use cubesync.Sync.Validate.{zero_time}
use cubesync.Admin.{Metric, has_prefix, should_skip_route}
use cubesync.Admin.Tables.{RequestStatsHourly, RequestError, StatsTables, Faults, run}
use cubesync.Admin.Records.{delete_old_errors, delete_old_request_stats}
use cubesync.Admin.Flush.{flush, run_cleanup}
use cubesync.Admin.Tally.{rows_of, Room}
use cubesync.Admin.Ledger.{ledger_of, note_each, flush-note_each}
use cubesync.Admin.Collector.{
  Phase, Collector, started, request_metric, take_metric, Run, begins, calls, collects,
  checks_request, sends_request, receives_metric,
}
use cubesync.Admin.Conserved.{Conserved, first_rows, Run-Conserved}
use cubesync.Admin.Bounds.{IsBounded, Run-IsBounded}
use cubesync.Admin.Drain.{left, Rounds, Finished, drain-terminates}
use cubesync.Admin.Range.{
  Texts, QueryRange, answer, resolve_range, Resolves, resolve_range-Resolves,
}
use cubesync.Admin.Aggregates.{Sorting}
use cubesync.Admin.Reports.{
  Floats, RequestSeries, RequestTypeSeries, request_stats, request_type_stats,
}
use cubesync.Admin.Totals.{sum_by, requests_in, reports-agree}
use cubesync.Admin.Errors.{
  ErrorLogResponse, limit_of, list_errors, before_or, before_id_or, ShowsErrors,
  list_errors-ShowsErrors,
}

abbrev works : Faults
works q t = false

abbrev no_trim : String → String
no_trim s = s

abbrev in_order : List RequestStatsHourly → List RequestStatsHourly
in_order rows = rows

abbrev request : ℕ → Metric
request ms = record {
  method = "GET";
  route = "/v1/stats";
  status = pos 200;
  duration = pos (ms * 1000000);
  at = 7200000000000;
}

abbrev two : List Metric
two = request 30 ∷ request 12 ∷ []

abbrev hour_row : RequestStatsHourly
hour_row = record {
  key = record {
    bucket_hour = 7200000000000;
    method = "GET";
    route = "/v1/stats";
    status_code = pos 200;
  };
  request_count = 5;
  total_duration_ms = 100;
  max_duration_ms = 25;
}

abbrev tables : StatsTables
tables = record { request_stats_hourly = hour_row ∷ []; request_errors = []; last_error_id = 0 }

two-Room : Room tables.request_stats_hourly (rows_of no_trim two)
two-Room k = ground arith

flush-note_each_example :
    (ledger_of (flush no_trim in_order works two tables).request_stats_hourly
      ≡ note_each no_trim two (ledger_of tables.request_stats_hourly))
    × ((flush no_trim in_order works two tables).request_errors ≡ tables.request_errors)
flush-note_each_example =
    flush-note_each no_trim in_order works (λ q t. refl) (λ rows. Permᴰ.refl rows) two tables
      two-Room

-- One request is recorded, sent and received.
abbrev start : Collector
start = started no_trim in_order works 7200000000000 tables

abbrev checked : Collector
checked = record start { sending = request 30 ∷ [] }

abbrev sent : Collector
sent = record checked { sending = []; metrics = request 30 ∷ []; accepted = request 30 ∷ [] }

abbrev received : Collector
received = take_metric no_trim in_order works (request 30) (record sent { metrics = [] })

one_request : Run no_trim in_order works start received
unfolding started request_metric should_skip_route has_prefix
one_request =
    collects
      (calls
        (calls begins (
          checks_request start 7200000000000 "GET" "/v1/stats" (pos 200) (pos 30000000) (request 30)
            refl))
        (sends_request checked [] [] (request 30) refl))
      (receives_metric sent (request 30) [] refl refl)

one-Room :
    Room
      (first_rows no_trim in_order works 7200000000000 tables)
      (rows_of no_trim received.accepted)
unfolding started take_metric run_cleanup delete_old_errors delete_old_request_stats run
one-Room k = ground arith

Run-Conserved_example :
    Conserved no_trim (first_rows no_trim in_order works 7200000000000 tables) received
Run-Conserved_example =
    Run-Conserved no_trim in_order works 7200000000000 tables received (λ q t. refl)
      (λ rows. Permᴰ.refl rows) one_request one-Room

Run-IsBounded_example : IsBounded received
Run-IsBounded_example =
    Run-IsBounded no_trim in_order works 7200000000000 tables received one_request

-- The same request, still in the channel when the collector drains, with an error in a buffer.
abbrev stopping : Collector
stopping = record sent {
  shutdown = true;
  stopped = true;
  phase = Phase.draining;
  err_buffer =
      record {
        user_id = some 7;
        method = "GET";
        route = "/v1/me";
        status_code = pos 500;
        code = "internal_error";
        message = "request could not be completed";
      }
      ∷ [];
}

stopping-Room :
    Room stopping.tables.request_stats_hourly
      (rows_of no_trim (stopping.buffer ++ stopping.metrics))
unfolding started run_cleanup delete_old_errors delete_old_request_stats run
stopping-Room k = ground arith

drain-terminates_example :
    ((n : ℕ) (s' : Collector)
      → Rounds no_trim in_order works n stopping s'
      → (n ≤ suc (left stopping))
        × (s'.phase ≡ Phase.done → Finished no_trim in_order works stopping s'))
    × (s' : Collector) × Rounds no_trim in_order works (suc (left stopping)) stopping s'
    × Finished no_trim in_order works stopping s'
drain-terminates_example =
    drain-terminates no_trim in_order works (λ q t. refl) (λ rows. Permᴰ.refl rows) stopping
      stopping-Room refl

abbrev texts : Texts
texts = record { trim_space = λ s. s; to_lower = λ s. s }

abbrev two_hours : QueryRange
two_hours = record { from = 40000000000000000; to = 40007200000000000; interval = "" }

abbrev hourly : QueryRange
hourly = record { from = 40000000000000000; to = 40007200000000000; interval = "hour" }

resolve_range-Resolves_example :
    (resolve_range texts 50000000000000000 two_hours ≡ answer hourly)
    ↔ Resolves texts 50000000000000000 two_hours hourly
resolve_range-Resolves_example = resolve_range-Resolves texts 50000000000000000 two_hours hourly

abbrev sorting : Sorting
sorting = record { date_trunc_day = λ t. t; text_before = λ s t. false }

abbrev floats : Floats ℕ
floats = record { float_zero = 0; float_quotient = λ a b. a }

abbrev counted_at : ℕ → String → RequestStatsHourly
counted_at at route = record hour_row {
  key = record { bucket_hour = at; method = "GET"; route = route; status_code = pos 200 };
}

abbrev three_rows : StatsTables
three_rows = record tables {
  request_stats_hourly =
      counted_at 40000000000000000 "/v1/stats"
      ∷ counted_at 40000000000000000 "/v1/sync"
      ∷ counted_at 39000000000000000 "/v1/sync"
      ∷ [];
}

reports-agree_example :
    (s : RequestSeries ℕ) × (u : RequestTypeSeries) × (request_stats floats texts sorting works
        50000000000000000 two_hours three_rows
      ≡ answer s)
    × (request_type_stats texts sorting works (λ es. es) 50000000000000000 two_hours three_rows
        ≡ answer u)
    × (sum_by (λ p. p.request_count) s.points ≡ requests_in hourly three_rows)
    × (sum_by (λ k. pos_part k.request_count) u.types ≡ requests_in hourly three_rows)
unfolding resolve_range
reports-agree_example =
    reports-agree floats texts sorting works (λ es. es) 50000000000000000 two_hours hourly
      three_rows (λ q t. refl) (λ es. Permᴰ.refl es) refl (omega arith) (omega arith)

abbrev error_at : ℕ → RequestError
error_at n = record {
  id = n;
  created_at = 7200000000000 + n;
  event = record {
    user_id = none;
    method = "GET";
    route = "/v1/me";
    status_code = pos 500;
    code = "internal_error";
    message = "request could not be completed";
  };
}

abbrev with_errors : StatsTables
with_errors = record tables { request_errors = error_at 1 ∷ error_at 2 ∷ error_at 3 ∷ [] }

list_errors-ShowsErrors_example :
    (1 ≤ limit_of (pos 2))
    × (limit_of (pos 2) ≤ 100)
    × (page : ErrorLogResponse) × (list_errors
          (λ id. "u")
          works
          7300000000000
          zero_time
          (pos 0)
          (pos 2)
          with_errors
        ≡ answer page)
    × ShowsErrors
        (λ id. "u")
        works
        (before_or 7300000000000 zero_time)
        (before_id_or (pos 0))
        (limit_of (pos 2))
        with_errors
        page
list_errors-ShowsErrors_example =
    list_errors-ShowsErrors (λ id. "u") works 7300000000000 zero_time (pos 0) (pos 2) with_errors
      refl ((omega arith, (omega arith, tt)), ((omega arith, tt), (tt, tt)))
      ((omega arith, omega arith), ((omega arith, omega arith), ((omega arith, omega arith), tt)))
