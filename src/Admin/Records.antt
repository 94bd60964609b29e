-- ===== src/Admin/Records.antt =====
-- internal/store/db/admin.sql.go and copyfrom.go: the statements that write the request statistics.
use Prim.Native.Nat.{max}
use cubesync.Prelude.{
  ℕ, suc, ◌+◌, ◌*◌, ◌^◌, Bool, true, not, ◌&&◌, List, [], ◌∷◌, ◌++◌, ltb, ◌==◌, if◌then◌else◌,
  select, str_eq, eqb_ℤ,
}
use cubesync.Store.{ok, err, failed}
use cubesync.Admin.Tables.{
  MetricKey, RequestStatsHourly, CopyRequestErrorsParams, RequestError, StatsQuery, Faults,
  StatsCall, run,
}

abbrev pub eqb_key : MetricKey → MetricKey → Bool
eqb_key a b =
    a.bucket_hour == b.bucket_hour
    && str_eq a.method b.method
    && str_eq a.route b.route
    && eqb_ℤ a.status_code b.status_code

-- DO UPDATE: the row, and what was EXCLUDED.
abbrev pub merged : RequestStatsHourly → RequestStatsHourly → RequestStatsHourly
merged row p = record row {
  request_count = row.request_count + p.request_count;
  total_duration_ms = row.total_duration_ms + p.total_duration_ms;
  max_duration_ms = max row.max_duration_ms p.max_duration_ms;
}

-- The primary key lets at most one row have the key.
unfoldable pub upsert : RequestStatsHourly → List RequestStatsHourly → List RequestStatsHourly
upsert p [] = p ∷ []
upsert p (row ∷ rows) =
    let rest = upsert p rows in if eqb_key p.key row.key then merged row p ∷ rows else row ∷ rest

-- The range of bigint above 0: a larger bit pattern is a negative number, which CHECK refuses.
abbrev pub is_bigint : ℕ → Bool
is_bigint n = ltb n (2 ^ 63)

abbrev pub is_row : RequestStatsHourly → Bool
is_row row =
    is_bigint row.request_count
    && (is_bigint row.total_duration_ms && is_bigint row.max_duration_ms)

abbrev pub are_rows : List RequestStatsHourly → Bool
are_rows [] = true
are_rows (row ∷ rows) = is_row row && are_rows rows

unfoldable pub record_request_stat_statement : RequestStatsHourly → StatsCall (Unit {0})
unfolding upsert
record_request_stat_statement p t =
    if is_row p && are_rows (upsert p t.request_stats_hourly)
    then (ok tt, record t { request_stats_hourly = upsert p t.request_stats_hourly })
    else (err failed, t)

abbrev pub numbered : ℕ → ℕ → List CopyRequestErrorsParams → List RequestError
numbered now last [] = []
numbered now last (p ∷ ps) =
    record { id = suc last; created_at = now; event = p } ∷ numbered now (suc last) ps

abbrev pub count_from : ℕ → List CopyRequestErrorsParams → ℕ
count_from n [] = n
count_from n (p ∷ ps) = count_from (suc n) ps

-- 24 hours, in nanoseconds
abbrev pub day : ℕ
day = 86400000000000

-- COPY: every row or none. `now` is the clock of the database, when the statement runs.
abbrev pub copy_errors : ℕ → List CopyRequestErrorsParams → StatsCall (Unit {0})
copy_errors now ps t = (
  ok tt,
  record t {
    request_errors = t.request_errors ++ numbered now t.last_error_id ps;
    last_error_id = count_from t.last_error_id ps;
  },
)

abbrev pub delete_errors : ℕ → StatsCall (Unit {0})
delete_errors now t = (
  ok tt,
  record t {
    request_errors = select (λ e. not (ltb (e.created_at + 30 * day) now)) t.request_errors;
  },
)

abbrev pub delete_stats : ℕ → StatsCall (Unit {0})
delete_stats now t = (
  ok tt,
  record t {
    request_stats_hourly =
        select (λ r. not (ltb (r.key.bucket_hour + 90 * day) now)) t.request_stats_hourly;
  },
)

module _ (fault : Faults) where
  unfoldable pub record_request_stat : RequestStatsHourly → StatsCall (Unit {0})
  unfolding run record_request_stat_statement
  record_request_stat p = run fault StatsQuery.record_request_stat (record_request_stat_statement p)

  unfoldable pub copy_request_errors : ℕ → List CopyRequestErrorsParams → StatsCall (Unit {0})
  unfolding run
  copy_request_errors now ps = run fault StatsQuery.copy_request_errors (copy_errors now ps)

  unfoldable pub delete_old_errors : ℕ → StatsCall (Unit {0})
  unfolding run
  delete_old_errors now = run fault StatsQuery.delete_old_errors (delete_errors now)

  unfoldable pub delete_old_request_stats : ℕ → StatsCall (Unit {0})
  unfolding run
  delete_old_request_stats now = run fault StatsQuery.delete_old_request_stats (delete_stats now)
