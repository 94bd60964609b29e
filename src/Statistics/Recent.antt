-- ===== src/Statistics/Recent.antt =====
-- The average of the most recent solves of a user.
use cubesync.Prelude.{
  ℕ, suc, ◌+◌, ◌≤◌, ◌<◌, ◌≡◌, refl, ap, ◌∙◌, String, Bool, true, false, none, some, List, [], ◌∷◌,
  map, if◌then◌else◌, length, select, take, take_all_of-le, All, arith, ◌==◌,
}
use cubesync.Store.{Db, Solf, ok, Conn, Query, Backend, settle, continue, pure, ◌>>=◌}
use cubesync.Store.Reliable.{IsReliable, exec_reliable}
use cubesync.Statistics.{max_int64, mean, trim_count, trimmed, compute_aon_from_times}
use cubesync.Statistics.Sorting.{count}
use cubesync.Statistics.Averages.{compute_aon_from_times-dnf}
use cubesync.Statistics.Service.{
  Aggregates, effective, is_dnf, shown_solve, order_recent, time_of, aon_row, user_solve_aon,
  or_panic, compute_aon,
}

-- The n most recent solves of the user, of the event if one is named, that are not deleted.
abbrev pub recent_solves : {Raw : Type 0} → ℕ → String → ℕ → Db Raw → List Solf
recent_solves user event n db = take n (order_recent (select (shown_solve user event) db.solves))

abbrev pub times_of : List Solf → List ℕ
times_of rows = map time_of (map aon_row rows)

length-times_of : (rows : List Solf) → length (times_of rows) ≡ length rows
length-times_of [] = refl
length-times_of (r ∷ rows) = ap suc (length-times_of rows)

bounded-times_of :
    (rows : List Solf)
    → All (λ r. effective r < max_int64) rows
    → All (λ t. t ≤ max_int64) (times_of rows)
bounded-times_of [] h = tt
bounded-times_of (r ∷ rows) h = (time_bound (is_dnf r) (effective r) h.0, bounded-times_of rows h.1)
  where
    time_bound : (b : Bool) (e : ℕ) → e < max_int64 → (if b then max_int64 else e) ≤ max_int64
    time_bound true e h = omega arith
    time_bound false e h = omega (arith, h)

count-times_of :
    (rows : List Solf)
    → All (λ r. effective r < max_int64) rows
    → count max_int64 (times_of rows) ≡ length (select is_dnf rows)
count-times_of [] h = refl
count-times_of (r ∷ rows) h =
    counted (is_dnf r) (effective r) (select is_dnf rows) h.0 (count-times_of rows h.1)
  where
    counted :
        (b : Bool) (e : ℕ) (dnfs : List Solf)
        → e < max_int64
        → count max_int64 (times_of rows) ≡ length dnfs
        → (if (if b then max_int64 else e) == max_int64 then 1 else 0)
            + count max_int64 (times_of rows)
          ≡ length (if b then r ∷ dnfs else dnfs)
    counted true e dnfs h ih = omega (arith, ih)
    counted false e dnfs h ih = ground (arith, ih, h)

module _ {Raw F : Type 0} (aggregates : Aggregates F) (backend : Backend Raw) (user : ℕ)
    (event : String) where
  compute_aon-runs :
      (n : ℕ) (c : Conn Raw)
      → IsReliable backend
      → c.aborted ≡ false
      → compute_aon aggregates backend user event n c
        ≡ or_panic aggregates backend user event
            (compute_aon_from_times (times_of (recent_solves user event n c.db)) n)
            c
  unfolding compute_aon user_solve_aon ◌>>=◌ continue settle
  compute_aon-runs n c reliable live =
      simp (exec_reliable backend reliable Query.user_solve_aon _ c live)

  -- Where no statement fails and the user has n such solves, n at least 3: computeAoN answers DNF
  -- exactly if more than ceil(5%) of the n most recent solves are DNF, and else the mean of their
  -- times without ceil(5%) of n at each end. No solve took math.MaxInt64 milliseconds.
  pub compute_aon-dnf :
      (n : ℕ) (c : Conn Raw)
      → IsReliable backend
      → c.aborted ≡ false
      → 3 ≤ n
      → length (recent_solves user event n c.db) ≡ n
      → All (λ r. effective r < max_int64) (recent_solves user event n c.db)
      → let recent = recent_solves user event n c.db in
        (trim_count n < length (select is_dnf recent)
          → compute_aon aggregates backend user event n c ≡ (ok (none, true), c))
        × (length (select is_dnf recent) ≤ trim_count n
            → compute_aon aggregates backend user event n c
              ≡ (ok (some (mean (trimmed n (times_of recent))), false), c))
  unfolding pure
  compute_aon-dnf n c reliable live three full bounded =
      let rows = recent_solves user event n c.db in
      let runs = compute_aon-runs n c reliable live in
      let dnf =
        compute_aon_from_times-dnf (times_of rows) n three
          (omega (arith, length-times_of rows, full)) (bounded-times_of rows bounded) in
      let counts : count max_int64 (take n (times_of rows)) ≡ length (select is_dnf rows) =
        ap (count max_int64)
          (take_all_of-le (times_of rows) n (omega (arith, length-times_of rows, full)))
        ∙ count-times_of rows bounded in
      (
        λ h.
            runs
            ∙ ap (λ r. or_panic aggregates backend user event r c)
                (dnf.0.1 (omega (arith, h, counts))),
        λ h.
            runs
            ∙ ap (λ r. or_panic aggregates backend user event r c)
                (dnf.1 (omega (arith, h, counts))),
      )
