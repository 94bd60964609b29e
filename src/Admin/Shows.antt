-- ===== src/Admin/Shows.antt =====
-- What a table shows of the requests that were written to it, after flushes and cleanups.
use Prim.Native.Nat.{max}
use mathlib.Core.Path.{subst}
use mathlib.Core.List.{Permᴰ}
use cubesync.Prelude.{
  ℕ, ◌+◌, ◌*◌, ◌≤◌, ◌≡◌, refl, sym, ap, ◌∙◌, String, Bool, true, false, not, List, [], ◌∷◌, ◌++◌,
  map, if◌then◌else◌, ltb, select, arith,
}
use cubesync.Store.{Result, err, failed}
use cubesync.Admin.{Metric, ErrorEvent}
use cubesync.Admin.Tables.{
  MetricKey, RequestStatsHourly, StatsTables, StatsQuery, Faults, StatsCall, run,
}
use cubesync.Admin.Records.{
  eqb_key, day, delete_errors, delete_stats, copy_errors, copy_request_errors, delete_old_errors,
  delete_old_request_stats,
}
use cubesync.Admin.Flush.{flush, flush_errors, run_cleanup, logged, error_row}
use cubesync.Admin.Upserts.{sum_at, max_at, load, eqb_key_sound}
use cubesync.Admin.Tally.{rows_of, Room}
use cubesync.Admin.Ledger.{ledger_of, joined, load-flush, ledger_of-flush}

abbrev stats_in : Result (Unit {0}) × StatsTables → List RequestStatsHourly
stats_in r = r.1.request_stats_hourly

-- A row that cleanup keeps.
abbrev pub is_kept : ℕ → RequestStatsHourly → Bool
is_kept now r = not (ltb (r.key.bucket_hour + 90 * day) now)

sum_at-kept :
    (f : RequestStatsHourly → ℕ) (now : ℕ) (k : MetricKey) (rows : List RequestStatsHourly)
    → now ≤ k.bucket_hour + 90 * day
    → sum_at f k (select (is_kept now) rows) ≡ sum_at f k rows
sum_at-kept f now k [] recent = refl
sum_at-kept f now k (row ∷ rows) recent = ground (
  arith,
  sum_at-kept f now k rows recent,
  λ (e : eqb_key k row.key ≡ true).
      ap (λ (j : MetricKey). j.bucket_hour) (eqb_key_sound k row.key e),
)

max_at-kept :
    (f : RequestStatsHourly → ℕ) (now : ℕ) (k : MetricKey) (rows : List RequestStatsHourly)
    → now ≤ k.bucket_hour + 90 * day
    → max_at f k (select (is_kept now) rows) ≡ max_at f k rows
max_at-kept f now k [] recent = refl
max_at-kept f now k (row ∷ rows) recent = ground (
  arith,
  max_at-kept f now k rows recent,
  λ (e : eqb_key k row.key ≡ true).
      ap (λ (j : MetricKey). j.bucket_hour) (eqb_key_sound k row.key e),
)

sum_at-select :
    (f : RequestStatsHourly → ℕ) (p : RequestStatsHourly → Bool) (k : MetricKey)
    (rows : List RequestStatsHourly)
    → sum_at f k (select p rows) ≤ sum_at f k rows
sum_at-select f p k [] = omega arith
sum_at-select f p k (row ∷ rows) = ground (arith, sum_at-select f p k rows)

module _ (trim_space : String → String) where
  pub sum_at-rows_of :
      (f : RequestStatsHourly → ℕ) (k : MetricKey) (xs ys : List Metric)
      → sum_at f k (rows_of trim_space (xs ++ ys))
        ≡ sum_at f k (rows_of trim_space xs) + sum_at f k (rows_of trim_space ys)
  sum_at-rows_of f k [] ys = omega arith
  sum_at-rows_of f k (x ∷ xs) ys = omega (arith, sum_at-rows_of f k xs ys)

  max_at-rows_of :
      (f : RequestStatsHourly → ℕ) (k : MetricKey) (xs ys : List Metric)
      → max_at f k (rows_of trim_space (xs ++ ys))
        ≡ max (max_at f k (rows_of trim_space xs)) (max_at f k (rows_of trim_space ys))
  max_at-rows_of f k [] ys = omega arith
  max_at-rows_of f k (x ∷ xs) ys = omega (arith, max_at-rows_of f k xs ys)

  -- Under every key of the last 90 days the table has what it had at the start and what was
  -- written; under no key it has more.
  pub record Shows (before rows : List RequestStatsHourly) (written : List Metric) (now : ℕ)
      : Type 0 where
    pub recent :
        (k : MetricKey)
        → now ≤ k.bucket_hour + 90 * day
        → ledger_of rows k ≡ joined (ledger_of before k) (ledger_of (rows_of trim_space written) k)
    pub loads :
        (k : MetricKey)
        → sum_at load k rows ≤ sum_at load k before + sum_at load k (rows_of trim_space written)

  pub Shows-start : (rows : List RequestStatsHourly) (now : ℕ) → Shows rows rows [] now
  Shows-start rows now = record { recent = λ k recent. ground arith; loads = λ k. omega arith }

  pub Shows-later :
      {before rows : List RequestStatsHourly} {written : List Metric} {now : ℕ} (n : ℕ)
      → Shows before rows written now
      → Shows before rows written (now + n)
  Shows-later n h = record {
    recent = λ k recent. h.recent k (omega (arith, recent));
    loads = h.loads;
  }

  pub Shows-kept :
      {before rows : List RequestStatsHourly} {written : List Metric} (now : ℕ)
      → Shows before rows written now
      → Shows before (select (is_kept now) rows) written now
  Shows-kept {rows = rows} now h = record {
    recent = λ k recent. ground (
      arith,
      sum_at-kept (λ r. r.request_count) now k rows recent,
      sum_at-kept (λ r. r.total_duration_ms) now k rows recent,
      max_at-kept (λ r. r.max_duration_ms) now k rows recent,
      h.recent k recent,
    );
    loads = λ k. omega (arith, h.loads k, sum_at-select load (is_kept now) k rows);
  }

  module _ (order : List RequestStatsHourly → List RequestStatsHourly) (fault : Faults)
      (works : (q : StatsQuery) (t : StatsTables) → fault q t ≡ false)
      (ranges : (rows : List RequestStatsHourly) → Permᴰ (order rows) rows) where
    pub Shows-flush :
        {before : List RequestStatsHourly} {written : List Metric} {now : ℕ} (buffer : List Metric)
        (t : StatsTables)
        → Room before (rows_of trim_space (written ++ buffer))
        → Shows before t.request_stats_hourly written now
        → Shows before
            (flush trim_space order fault buffer t).request_stats_hourly
            (written ++ buffer)
            now
    Shows-flush {before} {written} buffer t room h = record {
      recent = λ k recent. ground (
        arith,
        ledger_of-flush trim_space order fault works ranges buffer t k fits,
        h.recent k recent,
        sum_at-rows_of (λ r. r.request_count) k written buffer,
        sum_at-rows_of (λ r. r.total_duration_ms) k written buffer,
        max_at-rows_of (λ r. r.max_duration_ms) k written buffer,
      );
      loads = λ k. omega (
        arith,
        load-flush trim_space order fault works ranges buffer t fits k,
        h.loads k,
        sum_at-rows_of load k written buffer,
      );
    }
      where
        fits : Room t.request_stats_hourly (rows_of trim_space buffer)
        fits k = omega (arith, h.loads k, room k, sum_at-rows_of load k written buffer)

    -- A statement that does not fail.
    pub run_lem :
        {A : Type 0} (q : StatsQuery) (statement : StatsCall A) (t : StatsTables)
        → run fault q statement t ≡ statement t
    unfolding run
    run_lem q statement t = ap (λ b. if b then (err failed, t) else statement t) (works q t)

    run_cleanup_lem :
        (now : ℕ) (t : StatsTables)
        → (run_cleanup fault now t).request_stats_hourly
          ≡ select (is_kept now) t.request_stats_hourly
    unfolding run_cleanup delete_old_request_stats delete_old_errors run
    run_cleanup_lem now t =
        let between = logged (delete_old_errors fault now) t in
        ap stats_in (run_lem StatsQuery.delete_old_request_stats (delete_stats now) between)
        ∙ ap (λ (r : Result (Unit {0}) × StatsTables). select (is_kept now) (stats_in r))
            (run_lem StatsQuery.delete_old_errors (delete_errors now) t)

    pub Shows-cleanup :
        {before : List RequestStatsHourly} {written : List Metric} {now : ℕ} (t : StatsTables)
        → Shows before t.request_stats_hourly written now
        → Shows before (run_cleanup fault now t).request_stats_hourly written now
    Shows-cleanup {before} {written} {now} t h =
        subst (λ rows. Shows before rows written now) (sym (run_cleanup_lem now t))
          (Shows-kept now h)

    -- Writing the errors changes no statistics.
    pub flush_errors_lem :
        (at : ℕ) (buffer : List ErrorEvent) (t : StatsTables)
        → (flush_errors trim_space fault at buffer t).request_stats_hourly ≡ t.request_stats_hourly
    unfolding flush_errors copy_request_errors run
    flush_errors_lem at [] t = refl
    flush_errors_lem at (e ∷ buffer) t = ap stats_in (
        run_lem StatsQuery.copy_request_errors
          (copy_errors at (map (error_row trim_space) (e ∷ buffer))) t)

    pub Shows-errors :
        {before : List RequestStatsHourly} {written : List Metric} {now : ℕ} (at : ℕ)
        (buffer : List ErrorEvent) (t : StatsTables)
        → Shows before t.request_stats_hourly written now
        → Shows before (flush_errors trim_space fault at buffer t).request_stats_hourly written now
    Shows-errors {before} {written} {now} at buffer t h =
        subst (λ rows. Shows before rows written now) (sym (flush_errors_lem at buffer t)) h
