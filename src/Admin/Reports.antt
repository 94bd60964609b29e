-- ===== src/Admin/Reports.antt =====
-- internal/admin/service.go: RequestStats and RequestTypeStats.
use Prim.Native.Char.{code}
use cubesync.Prelude.{
  ℕ, ◌+◌, ◌%◌, ◌^◌, String, Bool, true, false, List, [], ◌∷◌, map, ltb, ◌==◌, if◌then◌else◌, str_eq,
  ℤ, ltb_ℤ, eqb_ℤ,
}
use cubesync.Store.{Result, ok, err}
use cubesync.Sync.Lock.{to_int64}
use cubesync.Admin.{request_type_for_route}
use cubesync.Admin.Tables.{StatsTables, Faults}
use cubesync.Admin.Range.{Answer, answer, refused, failure, QueryRange, Texts, resolve_range}
use cubesync.Admin.Aggregates.{
  Sorting, ListRequestStatsRow, ListRequestStatsByTypeRow, list_request_stats,
  list_request_stats_by_type,
}

-- float64: zero, and the quotient of two integers
pub record Floats (F : Type 0) : Type 0 where
  pub float_zero : F
  pub float_quotient : ℕ → ℕ → F

pub record RequestSeriesPoint (F : Type 0) : Type 0 where
  pub bucket : ℕ
  pub request_count : ℕ
  pub status_2xx : ℕ
  pub status_3xx : ℕ
  pub status_4xx : ℕ
  pub status_5xx : ℕ
  pub average_duration_ms : F
  pub max_duration_ms : ℕ

pub record RequestSeries (F : Type 0) : Type 0 where
  pub range : QueryRange
  pub points : List (RequestSeriesPoint F)

pub record RequestTypeCount : Type 0 where
  pub kind : String
  pub request_count : ℤ

pub record RequestTypeSeries : Type 0 where
  pub range : QueryRange
  pub types : List RequestTypeCount

-- `counts`, as the list of its entries; a count is the bit pattern of an int64.
pub record TypeEntry : Type 0 where
  pub kind : String
  pub count : ℕ

unfoldable pub add_type : String → ℕ → List TypeEntry → List TypeEntry
add_type kind n [] = record { kind = kind; count = n } ∷ []
add_type kind n (e ∷ es) =
    let rest = add_type kind n es in
    if str_eq kind e.kind then record e { count = (e.count + n) % 2 ^ 64 } ∷ es else e ∷ rest

unfoldable pub count_types : List TypeEntry → List ListRequestStatsByTypeRow → List TypeEntry
unfolding add_type
count_types counts [] = counts
count_types counts (q ∷ qs) =
    count_types (add_type (request_type_for_route q.route) q.request_count counts) qs

-- Go's < on strings
unfoldable pub string_before : String → String → Bool
string_before s String.[] = false
string_before String.[] (String.◌∷◌ d t) = true
string_before (String.◌∷◌ c s) (String.◌∷◌ d t) =
    let rest = string_before s t in if code c == code d then rest else ltb (code c) (code d)

abbrev pub type_before : RequestTypeCount → RequestTypeCount → Bool
type_before a b =
    if eqb_ℤ a.request_count b.request_count
    then string_before a.kind b.kind
    else ltb_ℤ b.request_count a.request_count

-- sort.Slice
unfoldable pub insert_type : RequestTypeCount → List RequestTypeCount → List RequestTypeCount
unfolding string_before
insert_type t [] = t ∷ []
insert_type t (u ∷ us) =
    let rest = insert_type t us in if type_before u t then u ∷ rest else t ∷ u ∷ us

unfoldable pub sort_types : List RequestTypeCount → List RequestTypeCount
unfolding insert_type
sort_types [] = []
sort_types (t ∷ ts) = insert_type t (sort_types ts)

abbrev pub type_count : TypeEntry → RequestTypeCount
type_count e = record { kind = e.kind; request_count = to_int64 e.count }

-- Where the range of the query is no error.
abbrev pub with_range : {A : Type 0} → Answer QueryRange → (QueryRange → Answer A) → Answer A
with_range (answer r) report = report r
with_range (refused code message) report = refused code message
with_range failure report = failure

module _ (order : List TypeEntry → List TypeEntry) where
  unfoldable pub types_of :
      QueryRange → Result (List ListRequestStatsByTypeRow) → Answer RequestTypeSeries
  unfolding count_types sort_types
  types_of r (err e) = failure
  types_of r (ok rows) =
      answer
        (record { range = r; types = sort_types (map type_count (order (count_types [] rows))) })

-- `order` is the order in which the map of the counts is ranged over.
module _ (texts : Texts) (sorting : Sorting) (fault : Faults)
    (order : List TypeEntry → List TypeEntry) (now : ℕ) (query : QueryRange) (t : StatsTables) where
  unfoldable pub request_type_stats : Answer RequestTypeSeries
  unfolding types_of resolve_range list_request_stats_by_type
  request_type_stats =
      with_range (resolve_range texts now query)
        λ r. types_of order r (list_request_stats_by_type sorting fault r t).0

module _ {F : Type 0} (floats : Floats F) where
  abbrev pub series_point : ListRequestStatsRow → RequestSeriesPoint F
  series_point row = record {
    bucket = row.bucket;
    request_count = row.request_count;
    status_2xx = row.status_2xx;
    status_3xx = row.status_3xx;
    status_4xx = row.status_4xx;
    status_5xx = row.status_5xx;
    average_duration_ms =
        if ltb 0 row.request_count
        then floats.float_quotient row.total_duration_ms row.request_count
        else floats.float_zero;
    max_duration_ms = row.max_duration_ms;
  }

  abbrev pub series_of : QueryRange → Result (List ListRequestStatsRow) → Answer (RequestSeries F)
  series_of r (err e) = failure
  series_of r (ok rows) = answer (record { range = r; points = map series_point rows })

  unfoldable pub request_stats :
      Texts → Sorting → Faults → ℕ → QueryRange → StatsTables → Answer (RequestSeries F)
  unfolding resolve_range list_request_stats
  request_stats texts sorting fault now query t =
      with_range (resolve_range texts now query)
        λ r. series_of r (list_request_stats sorting fault r t).0
