-- ===== src/Http/AdminHandlers.antt =====
-- internal/httpapi/admin_handlers.go: the handlers of the administration.
use cubesync.Prelude.{
  ℕ, String, Bool, true, false, ◌||◌, Option, none, some, if◌then◌else◌, str_eq, ℤ, pos, ltb_ℤ,
}
use cubesync.Sync.Validate.{zero_time}
use cubesync.Admin.Tables.{StatsTables}
use cubesync.Admin.Range.{QueryRange}
use cubesync.Admin.Reports as Reports
use cubesync.Admin.Errors as Errors
use cubesync.Admin.Overview as Overview
use cubesync.Http.Replies.{Payload, overview_body, Reply, reply, error_reply, write_internal}
use cubesync.Http.Endpoints.{RangeQuery, ErrorsQuery}
use cubesync.Http.Services.{App, Handler, respond, reported}

module _ {Raw F : Type 0} (app : App Raw F) where
  -- parseOptionalTime: the zero time for an absent value
  abbrev pub optional_time : String → Option ℕ
  optional_time value = if str_eq value "" then some zero_time else app.time_rfc3339 value

  abbrev pub bad_time : String → Reply Raw F
  bad_time name = error_reply 400 "invalid_range" name

  abbrev pub with_to : RangeQuery → ℕ → Option ℕ → (QueryRange → Reply Raw F) → Reply Raw F
  with_to query from none report = bad_time "to must be an RFC3339 timestamp"
  with_to query from (some to) report =
      report (record { from = from; to = to; interval = query.interval })

  -- parseStatsRange
  abbrev pub with_range_query : RangeQuery → Option ℕ → (QueryRange → Reply Raw F) → Reply Raw F
  with_range_query query none report = bad_time "from must be an RFC3339 timestamp"
  with_range_query query (some from) report = with_to query from (optional_time query.to) report

  unfoldable pub admin_request_stats : RangeQuery → Handler Raw F
  admin_request_stats query w = (
    with_range_query query (optional_time query.from) λ range. reported Payload.series_body (
        Reports.request_stats app.floats app.texts app.sorting app.stats_fault app.auth.now range
          w.stats),
    w,
  )

  unfoldable pub admin_request_type_stats : RangeQuery → Handler Raw F
  admin_request_type_stats query w = (
    with_range_query query (optional_time query.from) λ range. reported Payload.types_body (
        Reports.request_type_stats app.texts app.sorting app.stats_fault app.order_types
          app.auth.now range w.stats),
    w,
  )

  abbrev pub errors_reply : ℕ → ℤ → ℤ → StatsTables → Reply Raw F
  errors_reply before before_id limit t =
      reported Payload.errors_body (
        Errors.list_errors app.libs.uuid_text app.stats_fault app.auth.now before before_id limit t)

  abbrev pub with_limit : ℕ → ℤ → Bool → Option ℤ → StatsTables → Reply Raw F
  with_limit before before_id true parsed t = errors_reply before before_id (pos 50) t
  with_limit before before_id false none t =
      error_reply 400 "invalid_limit" "limit must be an integer between 1 and 100"
  with_limit before before_id false (some n) t =
      if ltb_ℤ n (pos 1) || ltb_ℤ (pos 100) n
      then error_reply 400 "invalid_limit" "limit must be an integer between 1 and 100"
      else errors_reply before before_id n t

  abbrev pub with_before_id : ErrorsQuery → ℕ → Option ℤ → StatsTables → Reply Raw F
  with_before_id query before none t =
      error_reply 400 "invalid_cursor" "before_id must be an integer"
  with_before_id query before (some before_id) t =
      with_limit before before_id (str_eq query.limit "") (app.formats.atoi query.limit) t

  abbrev pub with_before : ErrorsQuery → Option ℕ → StatsTables → Reply Raw F
  with_before query none t = error_reply 400 "invalid_cursor" "before must be an RFC3339 timestamp"
  with_before query (some before) t =
      with_before_id query before
        (if str_eq query.before_id "" then some (pos 0) else app.parse_int query.before_id) t

  unfoldable pub admin_error_stats : ErrorsQuery → Handler Raw F
  admin_error_stats query w = (with_before query (optional_time query.before) w.stats, w)

  abbrev pub handle_admin_overview : Handler Raw F
  handle_admin_overview =
      respond (Overview.overview app.backend) (λ r. reply 200 (overview_body r))
        (write_internal "request could not be completed")
