-- ===== src/Statistics/Averages.antt =====
-- When an average is DNF, and between what it lies.
use cubesync.Prelude.{
  ℕ, zero, suc, ◌+◌, ◌-◌, ◌≤◌, ◌<◌, ◌≡◌, refl, sym, ap, ◌∙◌, ◌↔◌, Bool, true, false, ◌||◌, none,
  some, List, [], ◌∷◌, ltb, ◌==◌, ==_iff, if◌then◌else◌, length, length-take, length-drop, take,
  drop, All, arith,
}
use cubesync.Statistics.{
  max_int64, sort_times, last_of, mean, trim_count, trimmed, average_of, compute_aon_from_times,
}
use cubesync.Statistics.Sorting.{
  count, get_elem?, All-sort_times, count-sort_times, length-sort_times, sort_times-Sorted,
  largest_at,
}

last_of-take : (j : ℕ) (xs : List ℕ) → j < length xs → last_of (take (suc j) xs) ≡ get_elem? xs j
last_of-take j [] h = absurd (omega (arith, h))
last_of-take zero (x ∷ xs) h = refl
last_of-take (suc j) (x ∷ []) h = absurd (omega (arith, h))
last_of-take (suc j) (x ∷ y ∷ ys) h = last_of-take j (y ∷ ys) (omega (arith, h))

get_elem?-drop : (k j m : ℕ) (xs : List ℕ) → k + j ≡ m → get_elem? (drop k xs) j ≡ get_elem? xs m
get_elem?-drop zero j m xs e = ap (get_elem? xs) (omega (arith, e))
get_elem?-drop (suc k) j m [] e = refl
get_elem?-drop (suc k) j zero (x ∷ xs) e = absurd (omega (arith, e))
get_elem?-drop (suc k) j (suc m) (x ∷ xs) e = get_elem?-drop k j m xs (omega (arith, e))

get_elem?-some : (i : ℕ) (xs : List ℕ) → i < length xs → (x : ℕ) × (get_elem? xs i ≡ some x)
get_elem?-some i [] h = absurd (omega (arith, h))
get_elem?-some zero (x ∷ xs) h = (x, refl)
get_elem?-some (suc i) (x ∷ xs) h = get_elem?-some i xs (omega (arith, h))

All-take : (P : ℕ → Type 0) (n : ℕ) (xs : List ℕ) → All P xs → All P (take n xs)
All-take P zero xs a = tt
All-take P (suc n) [] a = tt
All-take P (suc n) (x ∷ xs) a = (a.0, All-take P n xs a.1)

module _ (times : List ℕ) (n : ℕ) (three : 3 ≤ n) (enough : n ≤ length times) where
  abbrev sorted : List ℕ
  sorted = sort_times (take n times)

  length-sorted : length sorted ≡ n
  length-sorted = omega (arith, length-sort_times (take n times), length-take n times, enough)

  -- The time that is left at the end, after the trim.
  last_kept : (x : ℕ) × (get_elem? sorted (n - trim_count n - 1) ≡ some x)
  last_kept = get_elem?-some (n - trim_count n - 1) sorted (omega (arith, three, length-sorted))

  last_of-trimmed : last_of (trimmed n times) ≡ some last_kept.0
  unfolding trimmed
  last_of-trimmed =
      ap (λ j. last_of (take j (drop (trim_count n) sorted))) kept
      ∙ last_of-take (n - trim_count n - trim_count n - 1) (drop (trim_count n) sorted)
          (omega (arith, three, length-sorted, length-drop (trim_count n) sorted))
      ∙ get_elem?-drop (trim_count n) (n - trim_count n - trim_count n - 1) (n - trim_count n - 1)
          sorted (omega (arith, three))
      ∙ last_kept.1
    where
      kept : n - trim_count n - trim_count n ≡ suc (n - trim_count n - trim_count n - 1)
      kept = omega (arith, three)

  compute_aon-trimmed : compute_aon_from_times times n ≡ (
      if last_kept.0 == max_int64
      then some (none, true)
      else some (some (mean (trimmed n times)), false))
  unfolding compute_aon_from_times average_of
  compute_aon-trimmed = simp (given, last_of-trimmed)
    where
      given : (n == 0 || ltb (length times) n) ≡ false
      given = ground (arith, three, enough)

  is_last :
      All (λ t. t ≤ max_int64) times
      → ((last_kept.0 == max_int64) ≡ true) ↔ (trim_count n < count max_int64 (take n times))
  is_last bounded = (
    λ e. omega (
      arith,
      three,
      length-sorted,
      count-sort_times max_int64 (take n times),
      place.0 ((==_iff last_kept.0 max_int64).0 e),
    ),
    λ h. (==_iff last_kept.0 max_int64).1 (
        place.1
          (omega (arith, three, length-sorted, count-sort_times max_int64 (take n times), h))),
  )
    where
      place :
          (last_kept.0 ≡ max_int64)
          ↔ (length sorted ≤ n - trim_count n - 1 + count max_int64 sorted)
      place =
          largest_at max_int64 sorted (n - trim_count n - 1) last_kept.0
            (sort_times-Sorted (take n times))
            (All-sort_times (λ t. t ≤ max_int64) (take n times)
              (All-take (λ t. t ≤ max_int64) n times bounded))
            last_kept.1

  -- For at least three times, of which enough are given: the average is DNF exactly if more than
  -- ceil(5%) of the n most recent times are DNF, and otherwise it is the mean of the sorted times
  -- without ceil(5%) of n at each end. No time is above math.MaxInt64.
  pub compute_aon_from_times-dnf :
      All (λ t. t ≤ max_int64) times
      → ((compute_aon_from_times times n ≡ some (none, true))
          ↔ (trim_count n < count max_int64 (take n times)))
        × (count max_int64 (take n times) ≤ trim_count n
            → compute_aon_from_times times n ≡ some (some (mean (trimmed n times)), false))
  compute_aon_from_times-dnf bounded =
      decided (last_kept.0 == max_int64) compute_aon-trimmed (is_last bounded)
    where
      decided :
          (b : Bool)
          → compute_aon_from_times times n
            ≡ (if b then some (none, true) else some (some (mean (trimmed n times)), false))
          → (b ≡ true) ↔ (trim_count n < count max_int64 (take n times))
          → ((compute_aon_from_times times n ≡ some (none, true))
              ↔ (trim_count n < count max_int64 (take n times)))
            × (count max_int64 (take n times) ≤ trim_count n
                → compute_aon_from_times times n ≡ some (some (mean (trimmed n times)), false))
      decided true computed more =
          ((λ e. more.0 refl, λ h. computed), λ h. absurd (omega (arith, h, more.0 refl)))
      decided false computed more =
          ((λ e. absurd (cc (sym computed ∙ e)), λ h. absurd (cc (more.1 h))), λ h. computed)
