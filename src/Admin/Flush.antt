-- ===== src/Admin/Flush.antt =====
-- internal/admin/service.go: flush, flushErrors and runCleanup. What fails is logged and dropped.
use Prim.Native.Nat.{max}
use cubesync.Prelude.{
  ℕ, suc, ◌+◌, ◌-◌, ◌/◌, ◌%◌, ◌^◌, String, List, [], ◌∷◌, map, if◌then◌else◌, ℤ, pos, leb_ℤ,
  pos_part,
}
use cubesync.Admin.{Metric, ErrorEvent, int32_of, normalize_route}
use cubesync.Admin.Tables.{
  MetricKey, RequestStatsHourly, CopyRequestErrorsParams, StatsTables, Faults, StatsCall,
}
use cubesync.Admin.Records.{
  eqb_key, record_request_stat, copy_request_errors, delete_old_errors, delete_old_request_stats,
}

-- An hour, in nanoseconds
abbrev pub hour : ℕ
hour = 3600000000000

-- Milliseconds, and 0 for a negative duration
abbrev pub duration_ms : Metric → ℕ
duration_ms m = pos_part m.duration / 1000000

abbrev pub status_of : ℤ → ℤ
status_of status = let s = int32_of status in if leb_ℤ s (pos 0) then pos 200 else s

abbrev pub bumped : ℕ → RequestStatsHourly → RequestStatsHourly
bumped ms row = record row {
  request_count = suc row.request_count % 2 ^ 64;
  total_duration_ms = (row.total_duration_ms + ms) % 2 ^ 64;
  max_duration_ms = max row.max_duration_ms ms;
}

abbrev pub empty_row : MetricKey → RequestStatsHourly
empty_row k = record { key = k; request_count = 0; total_duration_ms = 0; max_duration_ms = 0 }

-- `aggregated`, as the list of its entries
unfoldable pub tally : MetricKey → ℕ → List RequestStatsHourly → List RequestStatsHourly
tally k ms [] = bumped ms (empty_row k) ∷ []
tally k ms (row ∷ rows) =
    let rest = tally k ms rows in if eqb_key k row.key then bumped ms row ∷ rows else row ∷ rest

-- A call whose error is logged.
abbrev pub logged : {A : Type 0} → StatsCall A → StatsTables → StatsTables
logged call t = (call t).1

-- `trim_space` is strings.TrimSpace, `order` the order in which range goes over the entries of a
-- map, which Go does not say.
module _ (trim_space : String → String) where
  abbrev pub key_of : Metric → MetricKey
  key_of m = record {
    bucket_hour = m.at - m.at % hour;
    method = m.method;
    route = normalize_route trim_space m.route;
    status_code = status_of m.status;
  }

  unfoldable pub aggregate : List RequestStatsHourly → List Metric → List RequestStatsHourly
  unfolding tally
  aggregate aggregated [] = aggregated
  aggregate aggregated (m ∷ buffer) = aggregate (tally (key_of m) (duration_ms m) aggregated) buffer

  abbrev pub error_row : ErrorEvent → CopyRequestErrorsParams
  error_row e = record {
    user_id = e.user_id;
    method = e.method;
    route = normalize_route trim_space e.route;
    status_code = e.status_code;
    code = e.code;
    message = e.message;
  }

module _ (fault : Faults) where
  unfoldable pub record_each : List RequestStatsHourly → StatsTables → StatsTables
  record_each [] t = t
  record_each (agg ∷ aggs) t = record_each aggs (logged (record_request_stat fault agg) t)

  unfoldable pub run_cleanup : ℕ → StatsTables → StatsTables
  run_cleanup now t =
      logged (delete_old_request_stats fault now) (logged (delete_old_errors fault now) t)

module _ (trim_space : String → String) (order : List RequestStatsHourly → List RequestStatsHourly)
    (fault : Faults) where
  unfoldable pub flush : List Metric → StatsTables → StatsTables
  unfolding aggregate record_each
  flush [] t = t
  flush (m ∷ buffer) t = record_each fault (order (aggregate trim_space [] (m ∷ buffer))) t

module _ (trim_space : String → String) (fault : Faults) where
  unfoldable pub flush_errors : ℕ → List ErrorEvent → StatsTables → StatsTables
  flush_errors now [] t = t
  flush_errors now (e ∷ buffer) t =
      logged (copy_request_errors fault now (map (error_row trim_space) (e ∷ buffer))) t
