-- ===== src/Admin/Totals.antt =====
-- The two reports of the requests of a range count the same requests.
use mathlib.Core.List.{Permᴰ}
use cubesync.Prelude.{
  ℕ, ◌+◌, ◌^◌, ◌<◌, ◌≡◌, refl, ap, ◌∙◌, String, true, false, List, [], ◌∷◌, map, str_eq, pos_part,
  arith, Bool-cases, inl, inr,
}
use cubesync.Store.{ok}
use cubesync.Sync.Lock.{to_int64}
use cubesync.Admin.{request_type_for_route}
use cubesync.Admin.Tables.{RequestStatsHourly, StatsTables, StatsQuery, Faults, run}
use cubesync.Admin.Range.{answer, QueryRange, Texts, resolve_range}
use cubesync.Admin.Aggregates.{
  Sorting, ListRequestStatsRow, ListRequestStatsByTypeRow, in_range, point_of, bucket_of,
  route_before, joined_points, add_point, are_points, group_points, add_route, group_routes,
  are_routes, insert_route, order_routes, list_request_stats, list_request_stats_by_type,
}
use cubesync.Admin.Reports.{
  Floats, RequestSeries, RequestTypeCount, RequestTypeSeries, TypeEntry, add_type, count_types,
  insert_type, sort_types, type_before, type_count, types_of, request_type_stats, series_point,
  request_stats,
}

-- The sum of a number over a list.
abbrev pub sum_by : {A : Type 0} → (A → ℕ) → List A → ℕ
sum_by f [] = 0
sum_by f (x ∷ xs) = f x + sum_by f xs

sum_by-map :
    {A B : Type 0} (f : B → ℕ) (g : A → B) (xs : List A)
    → sum_by f (map g xs) ≡ sum_by (λ x. f (g x)) xs
sum_by-map f g [] = refl
sum_by-map f g (x ∷ xs) = ap (f (g x) +◌) (sum_by-map f g xs)

sum_by-Permᴰ : {A : Type 0} (f : A → ℕ) {xs ys : List A} → Permᴰ xs ys → sum_by f xs ≡ sum_by f ys
sum_by-Permᴰ f Permᴰ.nil = refl
sum_by-Permᴰ f (Permᴰ.cons e p) = omega (arith, ap f e, sum_by-Permᴰ f p)
sum_by-Permᴰ f (Permᴰ.swap e d) = omega (arith, ap f e, ap f d)
sum_by-Permᴰ f (Permᴰ.trans p q) = sum_by-Permᴰ f p ∙ sum_by-Permᴰ f q

-- A number that is added where points are joined.
sum_by-add_point :
    (f : ListRequestStatsRow → ℕ)
    → ((p q : ListRequestStatsRow) → f (joined_points p q) ≡ f p + f q)
    → (p : ListRequestStatsRow) (qs : List ListRequestStatsRow)
    → sum_by f (add_point p qs) ≡ f p + sum_by f qs
unfolding add_point
sum_by-add_point f adds p [] = refl
sum_by-add_point f adds p (q ∷ qs) = ground (arith, adds q p, sum_by-add_point f adds p qs)

are_points_lem :
    (qs : List ListRequestStatsRow)
    → sum_by (λ q. q.request_count) qs < 2 ^ 63
    → sum_by (λ q. q.total_duration_ms) qs < 2 ^ 63
    → are_points qs ≡ true
are_points_lem [] counts times = refl
are_points_lem (q ∷ qs) counts times = ground (arith, counts, times, are_points_lem qs)

sum_by-add_route :
    (route : String) (n : ℕ) (qs : List ListRequestStatsByTypeRow)
    → sum_by (λ q. q.request_count) (add_route route n qs) ≡ n + sum_by (λ q. q.request_count) qs
unfolding add_route
sum_by-add_route route n [] = refl
sum_by-add_route route n (q ∷ qs) = ground (arith, sum_by-add_route route n qs)

sum_by-group_routes :
    (rs : List RequestStatsHourly)
    → sum_by (λ q. q.request_count) (group_routes rs) ≡ sum_by (λ r. r.request_count) rs
unfolding group_routes
sum_by-group_routes [] = refl
sum_by-group_routes (r ∷ rs) =
    omega (
      arith,
      sum_by-add_route r.key.route r.request_count (group_routes rs),
      sum_by-group_routes rs,
    )

are_routes_lem :
    (qs : List ListRequestStatsByTypeRow)
    → sum_by (λ q. q.request_count) qs < 2 ^ 63
    → are_routes qs ≡ true
are_routes_lem [] counts = refl
are_routes_lem (q ∷ qs) counts = ground (arith, counts, are_routes_lem qs)

module _ (sorting : Sorting) where
  sum_by-group_points :
      (f : ListRequestStatsRow → ℕ) (g : RequestStatsHourly → ℕ)
      → ((p q : ListRequestStatsRow) → f (joined_points p q) ≡ f p + f q)
      → ((bucket : ℕ) (r : RequestStatsHourly) → f (point_of bucket r) ≡ g r)
      → (interval : String) (rs : List RequestStatsHourly)
      → sum_by f (group_points sorting interval rs) ≡ sum_by g rs
  unfolding group_points
  sum_by-group_points f g adds reads interval [] = refl
  sum_by-group_points f g adds reads interval (r ∷ rs) =
      let bucket = bucket_of sorting interval r.key.bucket_hour in
      omega (
        arith,
        sum_by-add_point f adds (point_of bucket r) (group_points sorting interval rs),
        reads bucket r,
        sum_by-group_points f g adds reads interval rs,
      )

  sum_by-insert_route :
      (r : ListRequestStatsByTypeRow) (qs : List ListRequestStatsByTypeRow)
      → sum_by (λ q. q.request_count) (insert_route sorting r qs)
        ≡ r.request_count + sum_by (λ q. q.request_count) qs
  unfolding insert_route
  sum_by-insert_route r [] = refl
  sum_by-insert_route r (q ∷ qs) = elim (Bool-cases (route_before sorting q r)) [
    | inl e ↦ rw e (omega (arith, sum_by-insert_route r qs))
    | inr e ↦ rw e refl
  ]

  sum_by-order_routes :
      (qs : List ListRequestStatsByTypeRow)
      → sum_by (λ q. q.request_count) (order_routes sorting qs) ≡ sum_by (λ q. q.request_count) qs
  unfolding order_routes
  sum_by-order_routes [] = refl
  sum_by-order_routes (q ∷ qs) =
      sum_by-insert_route q (order_routes sorting qs)
      ∙ ap (q.request_count +◌) (sum_by-order_routes qs)

sum_by-add_type :
    (kind : String) (n : ℕ) (es : List TypeEntry)
    → n + sum_by (λ e. e.count) es < 2 ^ 63
    → sum_by (λ e. e.count) (add_type kind n es) ≡ n + sum_by (λ e. e.count) es
unfolding add_type
sum_by-add_type kind n [] room = refl
sum_by-add_type kind n (e ∷ es) room = elim (Bool-cases (str_eq kind e.kind)) [
  | inl same ↦ rw same (omega (arith, room))
  | inr other ↦ rw other (omega (arith, sum_by-add_type kind n es (omega (arith, room))))
]

sum_by-count_types :
    (es : List TypeEntry) (qs : List ListRequestStatsByTypeRow)
    → sum_by (λ e. e.count) es + sum_by (λ q. q.request_count) qs < 2 ^ 63
    → sum_by (λ e. e.count) (count_types es qs)
      ≡ sum_by (λ e. e.count) es + sum_by (λ q. q.request_count) qs
unfolding count_types
sum_by-count_types es [] room = omega arith
sum_by-count_types es (q ∷ qs) room =
    let kind = request_type_for_route q.route in
    let added = sum_by-add_type kind q.request_count es (omega (arith, room)) in
    sum_by-count_types (add_type kind q.request_count es) qs (omega (arith, room, added))
    ∙ omega (arith, added)

sum_by-insert_type :
    (f : RequestTypeCount → ℕ) (t : RequestTypeCount) (us : List RequestTypeCount)
    → sum_by f (insert_type t us) ≡ f t + sum_by f us
unfolding insert_type
sum_by-insert_type f t [] = refl
sum_by-insert_type f t (u ∷ us) = elim (Bool-cases (type_before u t)) [
  | inl e ↦ rw e (omega (arith, sum_by-insert_type f t us))
  | inr e ↦ rw e refl
]

sum_by-sort_types :
    (f : RequestTypeCount → ℕ) (ts : List RequestTypeCount) → sum_by f (sort_types ts) ≡ sum_by f ts
unfolding sort_types
sum_by-sort_types f [] = refl
sum_by-sort_types f (t ∷ ts) =
    sum_by-insert_type f t (sort_types ts) ∙ ap (f t +◌) (sum_by-sort_types f ts)

-- A count below the bound is shown as it is.
sum_by-type_count :
    (es : List TypeEntry)
    → sum_by (λ e. e.count) es < 2 ^ 63
    → sum_by (λ (t : RequestTypeCount). pos_part t.request_count) (map type_count es)
      ≡ sum_by (λ e. e.count) es
unfolding to_int64
sum_by-type_count [] room = refl
sum_by-type_count (e ∷ es) room = ground (arith, room, sum_by-type_count es)

-- The requests in a range.
abbrev pub requests_in : QueryRange → StatsTables → ℕ
requests_in r t = sum_by (λ h. h.request_count) (in_range r.from r.to t.request_stats_hourly)

abbrev pub time_in : QueryRange → StatsTables → ℕ
time_in r t = sum_by (λ h. h.total_duration_ms) (in_range r.from r.to t.request_stats_hourly)

module _ {F : Type 0} (floats : Floats F) (texts : Texts) (sorting : Sorting) (fault : Faults)
    (order : List TypeEntry → List TypeEntry) (now : ℕ) (query r : QueryRange)
    (t : StatsTables) where
  module _ (works : (q : StatsQuery) (u : StatsTables) → fault q u ≡ false)
      (ranges : (es : List TypeEntry) → Permᴰ (order es) es)
      (resolved : resolve_range texts now query ≡ answer r) where
    abbrev rows : List RequestStatsHourly
    rows = in_range r.from r.to t.request_stats_hourly

    points_listed :
        requests_in r t < 2 ^ 63
        → time_in r t < 2 ^ 63
        → list_request_stats sorting fault r t ≡ (ok (group_points sorting r.interval rows), t)
    unfolding list_request_stats run
    points_listed counts times = simp (
      works,
      are_points_lem (group_points sorting r.interval rows)
          (omega (
            arith,
            counts,
            sum_by-group_points sorting (λ q. q.request_count) (λ h. h.request_count) (λ p q. refl)
                (λ b h. refl) r.interval rows,
          ))
          (omega (
            arith,
            times,
            sum_by-group_points sorting (λ q. q.total_duration_ms) (λ h. h.total_duration_ms)
                (λ p q. refl) (λ b h. refl) r.interval rows,
          )),
    )

    routes_listed :
        requests_in r t < 2 ^ 63
        → list_request_stats_by_type sorting fault r t
          ≡ (ok (order_routes sorting (group_routes rows)), t)
    unfolding list_request_stats_by_type run
    routes_listed counts = simp (
      works,
      are_routes_lem (group_routes rows) (omega (arith, counts, sum_by-group_routes rows)),
    )

    abbrev counted : List TypeEntry
    counted = count_types [] (order_routes sorting (group_routes rows))

    abbrev series : RequestSeries F
    series = record {
      range = r;
      points = map (series_point floats) (group_points sorting r.interval rows);
    }

    abbrev type_series : RequestTypeSeries
    type_series = record { range = r; types = sort_types (map type_count (order counted)) }

    sum_by-counted :
        requests_in r t < 2 ^ 63 → sum_by (λ e. e.count) (order counted) ≡ requests_in r t
    sum_by-counted counts =
        let listed = sum_by-order_routes sorting (group_routes rows) ∙ sum_by-group_routes rows in
        omega (
          arith,
          listed,
          sum_by-Permᴰ (λ e. e.count) (ranges counted),
          sum_by-count_types [] (order_routes sorting (group_routes rows))
              (omega (arith, counts, listed)),
        )

    -- Where no statement fails and the range holds fewer than 2^63 requests and milliseconds, both
    -- reports of an accepted range are answered, and the requests of all the points are as many as
    -- those of all the types: those that the table counts in the range.
    pub reports-agree :
        requests_in r t < 2 ^ 63
        → time_in r t < 2 ^ 63
        → (s : RequestSeries F) × (u : RequestTypeSeries) × (request_stats floats texts sorting
              fault now query t
            ≡ answer s)
          × (request_type_stats texts sorting fault order now query t ≡ answer u)
          × (sum_by (λ p. p.request_count) s.points ≡ requests_in r t)
          × (sum_by (λ k. pos_part k.request_count) u.types ≡ requests_in r t)
    unfolding request_stats request_type_stats types_of
    reports-agree counts times = (
      series,
      type_series,
      simp (resolved, points_listed counts times),
      simp (resolved, routes_listed counts),
      sum_by-map (λ p. p.request_count) (series_point floats) (group_points sorting r.interval rows)
          ∙ sum_by-group_points sorting (λ q. q.request_count) (λ h. h.request_count) (λ p q. refl)
              (λ b h. refl) r.interval rows,
      sum_by-sort_types (λ k. pos_part k.request_count) (map type_count (order counted))
          ∙ sum_by-type_count (order counted) (omega (arith, counts, sum_by-counted counts))
          ∙ sum_by-counted counts,
    )
