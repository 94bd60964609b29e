-- ===== src/Statistics/Service.antt =====
-- internal/sync/retention.go: ComputeStats and computeAoN, over the statements of
-- internal/store/db/stats.sql.go. The means in floating point are functions of the times.
use Prim.Native.Nat.{min, max}
use cubesync.Prelude.{
  ℕ, ◌+◌, String, Bool, true, false, not, ◌&&◌, ◌||◌, Option, none, some, List, [], ◌∷◌, ◌++◌, map,
  ltb, ◌==◌, if◌then◌else◌, length, select, take, is_some, str_eq, ℤ,
}
use cubesync.Store.{Solf, ok, failed, Query, Backend, M, exec, pure, raise, ◌>>=◌}
use cubesync.Statistics.{max_int64, sum, compute_aon_from_times}

-- AVG and STDDEV_POP as float8, of the counted times.
pub record Aggregates (F : Type 0) : Type 0 where
  pub avg : List ℕ → F
  pub stddev_pop : List ℕ → F

pub record UserSolveStatsRow (F : Type 0) : Type 0 where
  pub total_count : ℕ
  pub counted_count : ℕ
  pub min_ms : ℕ
  pub max_ms : ℕ
  pub mean_ms : F
  pub stddev_ms : F
  pub total_ms : ℕ
  pub dnf_count : ℕ

pub record UserSolveAonRow : Type 0 where
  pub effective_ms : ℕ
  pub penalty : String

pub record StatsResponse (F : Type 0) : Type 0 where
  pub total_count : ℕ
  pub counted_count : ℕ
  pub dnf_count : ℕ
  pub min_ms : ℕ
  pub max_ms : ℕ
  pub mean_ms : F
  pub stddev_ms : F
  pub total_ms : ℕ
  pub ao5 : Option ℤ
  pub ao12 : Option ℤ
  pub ao50 : Option ℤ
  pub ao100 : Option ℤ
  pub dnf_averages : List String

abbrev pub effective : Solf → ℕ
effective r = if str_eq r.penalty "plus_two" then r.duration_ms + 2000 else r.duration_ms

abbrev pub is_dnf : Solf → Bool
is_dnf r = str_eq r.penalty "dnf"

abbrev pub shown_solve : ℕ → String → Solf → Bool
shown_solve user event r =
    r.user_id == user && (not (is_some r.deleted_at) && (str_eq event "" || str_eq r.event event))

-- solved_at DESC, id DESC
abbrev pub more_recent : Solf → Solf → Bool
more_recent a b = if a.solved_at == b.solved_at then ltb b.id a.id else ltb b.solved_at a.solved_at

unfoldable pub insert_recent : Solf → List Solf → List Solf
insert_recent r [] = r ∷ []
insert_recent r (x ∷ xs) =
    let rest = insert_recent r xs in if more_recent x r then x ∷ rest else r ∷ x ∷ xs

unfoldable pub order_recent : List Solf → List Solf
unfolding insert_recent
order_recent [] = []
order_recent (r ∷ rs) = insert_recent r (order_recent rs)

abbrev pub min_of : List ℕ → ℕ
min_of [] = 0
min_of (x ∷ []) = x
min_of (x ∷ y ∷ ys) = min x (min_of (y ∷ ys))

abbrev pub max_of : List ℕ → ℕ
max_of [] = 0
max_of (x ∷ xs) = max x (max_of xs)

-- A solve that was not finished counts as the largest time.
abbrev pub time_of : UserSolveAonRow → ℕ
time_of row = if str_eq row.penalty "dnf" then max_int64 else row.effective_ms

abbrev pub ao_name : ℕ → String
ao_name n =
    if n == 5 then "ao5" else if n == 12 then "ao12" else if n == 50 then "ao50" else "ao100"

abbrev pub aon_row : Solf → UserSolveAonRow
aon_row r = record { effective_ms = effective r; penalty = r.penalty }

abbrev pub stats_row : {F : Type 0} → Aggregates F → List Solf → UserSolveStatsRow F
stats_row aggregates rows =
    let times = map effective (select (λ r. not (is_dnf r)) rows) in
    record {
      total_count = length rows;
      counted_count = length times;
      min_ms = min_of times;
      max_ms = max_of times;
      mean_ms = aggregates.avg times;
      stddev_ms = aggregates.stddev_pop times;
      total_ms = sum times;
      dnf_count = length (select is_dnf rows);
    }

module _ {Raw F : Type 0} (aggregates : Aggregates F) (backend : Backend Raw) (user : ℕ)
    (event : String) where
  unfoldable pub user_solve_stats : M Raw (UserSolveStatsRow F)
  user_solve_stats =
      exec backend Query.user_solve_stats
        λ db. (ok (stats_row aggregates (select (shown_solve user event) db.solves)), db)

  unfoldable pub user_solve_aon : ℕ → M Raw (List UserSolveAonRow)
  unfolding order_recent
  user_solve_aon limit = exec backend Query.user_solve_aon λ db.
      (ok (map aon_row (take limit (order_recent (select (shown_solve user event) db.solves)))), db)

  -- A panic fails the call too.
  abbrev pub or_panic : Option (Option ℤ × Bool) → M Raw (Option ℤ × Bool)
  or_panic none = raise failed
  or_panic (some r) = pure r

  unfoldable pub compute_aon : ℕ → M Raw (Option ℤ × Bool)
  compute_aon n = do rows ← user_solve_aon n; or_panic (compute_aon_from_times (map time_of rows) n)

  abbrev pub set_average : ℕ → Option ℤ × Bool → StatsResponse F → StatsResponse F
  set_average n (ao, true) resp = record resp { dnf_averages = resp.dnf_averages ++ ao_name n ∷ [] }
  set_average n (ao, false) resp =
      if n == 5
      then record resp { ao5 = ao }
      else if n == 12
      then record resp { ao12 = ao }
      else if n == 50
      then record resp { ao50 = ao }
      else record resp { ao100 = ao }

  -- The loop stops at the first number that the solves do not reach.
  unfoldable pub averages : ℕ → List ℕ → StatsResponse F → M Raw (StatsResponse F)
  averages solves [] resp = pure resp
  averages solves (n ∷ ns) resp =
      if ltb solves n
      then pure resp
      else compute_aon n >>= λ r. averages solves ns (set_average n r resp)

  abbrev pub response_of : UserSolveStatsRow F → StatsResponse F
  response_of row = record {
    total_count = row.total_count;
    counted_count = row.counted_count;
    dnf_count = row.dnf_count;
    min_ms = row.min_ms;
    max_ms = row.max_ms;
    mean_ms = row.mean_ms;
    stddev_ms = row.stddev_ms;
    total_ms = row.total_ms;
    ao5 = none;
    ao12 = none;
    ao50 = none;
    ao100 = none;
    dnf_averages = [];
  }

  unfoldable pub compute_stats : M Raw (StatsResponse F)
  compute_stats = do
    row ← user_solve_stats
    averages (row.counted_count + row.dnf_count) (5 ∷ 12 ∷ 50 ∷ 100 ∷ []) (response_of row)
