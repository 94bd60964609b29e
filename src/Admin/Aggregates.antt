-- ===== src/Admin/Aggregates.antt =====
-- internal/store/db/admin.sql.go: ListRequestStats and ListRequestStatsByType. A group of GROUP BY
-- is kept as its aggregates, which every row is added to.
use Prim.Native.Nat.{max}
use cubesync.Prelude.{
  ℕ, ◌+◌, String, Bool, true, ◌&&◌, List, [], ◌∷◌, ltb, leb, ◌==◌, if◌then◌else◌, select, str_eq, ℤ,
  pos, ltb_ℤ, leb_ℤ,
}
use cubesync.Store.{ok, err, failed}
use cubesync.Admin.Tables.{RequestStatsHourly, StatsQuery, Faults, StatsCall, run}
use cubesync.Admin.Records.{is_bigint}
use cubesync.Admin.Range.{QueryRange}

-- date_trunc('day', t) in the time zone of the session, and the order of texts in the database's
-- collation
pub record Sorting : Type 0 where
  pub date_trunc_day : ℕ → ℕ
  pub text_before : String → String → Bool

pub record ListRequestStatsRow : Type 0 where
  pub bucket : ℕ
  pub request_count : ℕ
  pub status_2xx : ℕ
  pub status_3xx : ℕ
  pub status_4xx : ℕ
  pub status_5xx : ℕ
  pub total_duration_ms : ℕ
  pub max_duration_ms : ℕ

pub record ListRequestStatsByTypeRow : Type 0 where
  pub route : String
  pub request_count : ℕ

abbrev pub in_range : ℕ → ℕ → List RequestStatsHourly → List RequestStatsHourly
in_range from to = select (λ r. leb from r.key.bucket_hour && ltb r.key.bucket_hour to)

-- CASE WHEN low <= status_code AND status_code < high THEN request_count ELSE 0 END
abbrev pub count_if : Bool → ℕ → ℕ
count_if b n = if b then n else 0

abbrev pub within : ℕ → ℕ → ℤ → Bool
within low high status = leb_ℤ (pos low) status && ltb_ℤ status (pos high)

abbrev pub point_of : ℕ → RequestStatsHourly → ListRequestStatsRow
point_of bucket r = record {
  bucket = bucket;
  request_count = r.request_count;
  status_2xx = count_if (within 200 300 r.key.status_code) r.request_count;
  status_3xx = count_if (within 300 400 r.key.status_code) r.request_count;
  status_4xx = count_if (within 400 500 r.key.status_code) r.request_count;
  status_5xx = count_if (leb_ℤ (pos 500) r.key.status_code) r.request_count;
  total_duration_ms = r.total_duration_ms;
  max_duration_ms = r.max_duration_ms;
}

abbrev pub joined_points : ListRequestStatsRow → ListRequestStatsRow → ListRequestStatsRow
joined_points p q = record {
  bucket = p.bucket;
  request_count = p.request_count + q.request_count;
  status_2xx = p.status_2xx + q.status_2xx;
  status_3xx = p.status_3xx + q.status_3xx;
  status_4xx = p.status_4xx + q.status_4xx;
  status_5xx = p.status_5xx + q.status_5xx;
  total_duration_ms = p.total_duration_ms + q.total_duration_ms;
  max_duration_ms = max p.max_duration_ms q.max_duration_ms;
}

-- GROUP BY 1 ORDER BY 1
unfoldable pub add_point : ListRequestStatsRow → List ListRequestStatsRow → List ListRequestStatsRow
add_point p [] = p ∷ []
add_point p (q ∷ qs) =
    let rest = add_point p qs in
    if p.bucket == q.bucket
    then joined_points q p ∷ qs
    else if ltb p.bucket q.bucket
    then p ∷ q ∷ qs
    else q ∷ rest

-- A sum that is no bigint fails the statement.
abbrev pub is_point : ListRequestStatsRow → Bool
is_point p = is_bigint p.request_count && is_bigint p.total_duration_ms

abbrev pub are_points : List ListRequestStatsRow → Bool
are_points [] = true
are_points (p ∷ ps) = is_point p && are_points ps

-- GROUP BY route
unfoldable pub add_route :
    String → ℕ → List ListRequestStatsByTypeRow → List ListRequestStatsByTypeRow
add_route route n [] = record { route = route; request_count = n } ∷ []
add_route route n (q ∷ qs) =
    let rest = add_route route n qs in
    if str_eq route q.route then record q { request_count = q.request_count + n } ∷ qs else q ∷ rest

unfoldable pub group_routes : List RequestStatsHourly → List ListRequestStatsByTypeRow
unfolding add_route
group_routes [] = []
group_routes (r ∷ rs) = add_route r.key.route r.request_count (group_routes rs)

abbrev pub are_routes : List ListRequestStatsByTypeRow → Bool
are_routes [] = true
are_routes (q ∷ qs) = is_bigint q.request_count && are_routes qs

module _ (sorting : Sorting) where
  abbrev pub bucket_of : String → ℕ → ℕ
  bucket_of interval t = if str_eq interval "day" then sorting.date_trunc_day t else t

  unfoldable pub group_points : String → List RequestStatsHourly → List ListRequestStatsRow
  unfolding add_point
  group_points interval [] = []
  group_points interval (r ∷ rs) =
      add_point (point_of (bucket_of interval r.key.bucket_hour) r) (group_points interval rs)

  -- request_count DESC, route
  abbrev pub route_before : ListRequestStatsByTypeRow → ListRequestStatsByTypeRow → Bool
  route_before a b =
      if a.request_count == b.request_count
      then sorting.text_before a.route b.route
      else ltb b.request_count a.request_count

  unfoldable pub insert_route :
      ListRequestStatsByTypeRow → List ListRequestStatsByTypeRow → List ListRequestStatsByTypeRow
  insert_route r [] = r ∷ []
  insert_route r (q ∷ qs) =
      let rest = insert_route r qs in if route_before q r then q ∷ rest else r ∷ q ∷ qs

  unfoldable pub order_routes : List ListRequestStatsByTypeRow → List ListRequestStatsByTypeRow
  unfolding insert_route
  order_routes [] = []
  order_routes (r ∷ rs) = insert_route r (order_routes rs)

  module _ (fault : Faults) where
    unfoldable pub list_request_stats : QueryRange → StatsCall (List ListRequestStatsRow)
    unfolding run group_points
    list_request_stats q = run fault StatsQuery.list_request_stats λ t.
        let rows = group_points q.interval (in_range q.from q.to t.request_stats_hourly) in
        if are_points rows then (ok rows, t) else (err failed, t)

    unfoldable pub list_request_stats_by_type :
        QueryRange → StatsCall (List ListRequestStatsByTypeRow)
    unfolding run group_routes order_routes
    list_request_stats_by_type q = run fault StatsQuery.list_request_stats_by_type λ t.
        let rows = group_routes (in_range q.from q.to t.request_stats_hourly) in
        if are_routes rows then (ok (order_routes rows), t) else (err failed, t)
