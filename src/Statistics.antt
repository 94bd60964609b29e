-- ===== src/Statistics.antt =====
-- internal/sync/retention.go: the averages of computeAoNFromTimes.
pub mod Service
pub mod Sorting
pub mod Averages
pub mod Recent
mod Tests
use cubesync.Prelude.{
  ℕ, zero, suc, ◌+◌, ◌-◌, ◌*◌, ◌/◌, ◌%◌, ◌^◌, Bool, true, false, ◌||◌, Option, none, some, List, [],
  ◌∷◌, ltb, leb, ◌==◌, if◌then◌else◌, length, take, drop, ℤ, pos, negsuc,
}
use cubesync.Sync.Lock.{to_int64}

-- math.MaxInt64, which stands for a solve that was not finished
abbrev pub max_int64 : ℕ
max_int64 = 2 ^ 63 - 1

-- slices.Sort
unfoldable pub insert_time : ℕ → List ℕ → List ℕ
insert_time t [] = t ∷ []
insert_time t (x ∷ xs) = let rest = insert_time t xs in if leb t x then t ∷ x ∷ xs else x ∷ rest

unfoldable pub sort_times : List ℕ → List ℕ
unfolding insert_time
sort_times [] = []
sort_times (t ∷ ts) = insert_time t (sort_times ts)

abbrev pub last_of : List ℕ → Option ℕ
last_of [] = none
last_of (x ∷ []) = some x
last_of (x ∷ y ∷ ys) = last_of (y ∷ ys)

abbrev pub sum : List ℕ → ℕ
sum [] = 0
sum (x ∷ xs) = x + sum xs

-- Go's division by a positive number, which cuts towards 0.
abbrev pub negated : ℕ → ℤ
negated zero = pos 0
negated (suc n) = negsuc n

abbrev pub quotient : ℤ → ℕ → ℤ
quotient (pos a) count = pos (a / count)
quotient (negsuc a) count = negated (suc a / count)

-- The sum is of int64.
unfoldable pub mean : List ℕ → ℤ
unfolding to_int64
mean ts = quotient (to_int64 ((sum ts + length ts / 2) % 2 ^ 64)) (length ts)

-- ceil(5%) of n
abbrev pub trim_count : ℕ → ℕ
trim_count n = (n + 19) / 20

unfoldable pub trimmed : ℕ → List ℕ → List ℕ
unfolding sort_times
trimmed n times =
    take (n - trim_count n - trim_count n) (drop (trim_count n) (sort_times (take n times)))

-- The average and whether it is DNF; the outer `none` is the panic of an index of an empty slice.
unfoldable pub average_of : List ℕ → Option ℕ → Option (Option ℤ × Bool)
unfolding mean
average_of ts none = none
average_of ts (some last) =
    if last == max_int64 then some (none, true) else some (some (mean ts), false)

unfoldable pub compute_aon_from_times : List ℕ → ℕ → Option (Option ℤ × Bool)
unfolding average_of trimmed
compute_aon_from_times times n =
    if n == 0 || ltb (length times) n
    then some (none, false)
    else average_of (trimmed n times) (last_of (trimmed n times))
