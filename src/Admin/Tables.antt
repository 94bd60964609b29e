-- ===== src/Admin/Tables.antt =====
-- internal/store/db/models.go and db/migrations: the tables of the request statistics, which refer
-- to no other table, and what it is to run a statement on the pool.
use cubesync.Prelude.{ℕ, String, Bool, Option, List, if◌then◌else◌, ℤ}
use cubesync.Store.{Result, err, failed}

-- The key of request_stats_hourly; metricKey of the service has the same fields.
pub record MetricKey : Type 0 where
  pub bucket_hour : ℕ
  pub method : String
  pub route : String
  pub status_code : ℤ

-- A row of request_stats_hourly, and RecordRequestStatParams, which has the same fields. In the
-- parameters a number is the bit pattern of an int64.
pub record RequestStatsHourly : Type 0 where
  pub key : MetricKey
  pub request_count : ℕ
  pub total_duration_ms : ℕ
  pub max_duration_ms : ℕ

pub record CopyRequestErrorsParams : Type 0 where
  pub user_id : Option ℕ
  pub method : String
  pub route : String
  pub status_code : ℤ
  pub code : String
  pub message : String

pub record RequestError : Type 0 where
  pub id : ℕ
  pub created_at : ℕ
  pub event : CopyRequestErrorsParams

-- `last_error_id` is the sequence behind `request_errors.id`, a bigserial.
pub record StatsTables : Type 0 where
  pub request_stats_hourly : List RequestStatsHourly
  pub request_errors : List RequestError
  pub last_error_id : ℕ

-- The statements, as the names under which they may fail.
pub data StatsQuery : Type 0 where
  record_request_stat copy_request_errors delete_old_errors delete_old_request_stats : StatsQuery
  list_request_stats list_request_stats_by_type list_individual_errors : StatsQuery

abbrev pub Faults : Type 0
Faults = StatsQuery → StatsTables → Bool

abbrev pub StatsCall : Type 0 → Type 0
StatsCall A = StatsTables → Result A × StatsTables

-- One statement on the pool.
unfoldable pub run : {A : Type 0} → Faults → StatsQuery → StatsCall A → StatsCall A
run fault q statement t = if fault q t then (err failed, t) else statement t
