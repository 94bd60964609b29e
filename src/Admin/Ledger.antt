-- ===== src/Admin/Ledger.antt =====
-- The table of request statistics as a ledger, and a flush as entries in it, request by request.
use Prim.Native.Nat.{max}
use mathlib.Core.List.{Permᴰ}
use mathlib.Core.Path.{fun_ext}
use cubesync.Prelude.{
  ℕ, suc, ◌+◌, ◌≤◌, ◌≡◌, refl, sym, ap, ◌∙◌, String, false, List, [], ◌∷◌, if◌then◌else◌, arith,
}
use cubesync.Admin.{Metric}
use cubesync.Admin.Tables.{MetricKey, RequestStatsHourly, StatsTables, StatsQuery, Faults}
use cubesync.Admin.Records.{eqb_key, merged}
use cubesync.Admin.Flush.{duration_ms, key_of, aggregate, flush}
use cubesync.Admin.Upserts.{
  sum_at, max_at, upsert_each, load, load-merged, sum_at-upsert_each, sum_at-upsert_each-le,
  max_at-upsert_each, sum_at-Permᴰ, max_at-Permᴰ,
}
use cubesync.Admin.Tally.{rows_of, Room, aggregate-upsert_each, record_each-upsert_each}

-- What is known of the requests under one key.
pub record Cell : Type 0 where
  pub count : ℕ
  pub total_ms : ℕ
  pub longest_ms : ℕ

abbrev pub Ledger : Type 0
Ledger = MetricKey → Cell

abbrev pub ledger_of : List RequestStatsHourly → Ledger
ledger_of rows k = record {
  count = sum_at (λ r. r.request_count) k rows;
  total_ms = sum_at (λ r. r.total_duration_ms) k rows;
  longest_ms = max_at (λ r. r.max_duration_ms) k rows;
}

-- One more request.
abbrev pub noted : MetricKey → ℕ → Cell → Cell
noted k ms c = record {
  count = suc c.count;
  total_ms = c.total_ms + ms;
  longest_ms = max c.longest_ms ms;
}

abbrev pub note : MetricKey → ℕ → Ledger → Ledger
note k ms ledger other = if eqb_key other k then noted k ms (ledger other) else ledger other

abbrev pub note_each : (String → String) → List Metric → Ledger → Ledger
note_each trim_space [] ledger = ledger
note_each trim_space (m ∷ ms) ledger =
    note_each trim_space ms (note (key_of trim_space m) (duration_ms m) ledger)

-- Adding the rows of requests to a cell.
abbrev pub joined : Cell → Cell → Cell
joined a b = record {
  count = a.count + b.count;
  total_ms = a.total_ms + b.total_ms;
  longest_ms = max a.longest_ms b.longest_ms;
}

pub note_each-rows_of :
    (trim_space : String → String) (buffer : List Metric) (ledger : Ledger) (k : MetricKey)
    → note_each trim_space buffer ledger k
      ≡ joined (ledger k) (ledger_of (rows_of trim_space buffer) k)
note_each-rows_of trim_space [] ledger k = ground arith
note_each-rows_of trim_space (m ∷ buffer) ledger k =
    note_each-rows_of trim_space buffer (note (key_of trim_space m) (duration_ms m) ledger) k
    ∙ ground arith

module _ (trim_space : String → String) (order : List RequestStatsHourly → List RequestStatsHourly)
    (fault : Faults) where
  module _ (works : (q : StatsQuery) (t : StatsTables) → fault q t ≡ false)
      (ranges : (rows : List RequestStatsHourly) → Permᴰ (order rows) rows) where
    -- What a flush records.
    abbrev entries : List Metric → List RequestStatsHourly
    entries [] = []
    entries (m ∷ buffer) = order (aggregate trim_space [] (m ∷ buffer))

    sum_at-entries :
        (f : RequestStatsHourly → ℕ) (buffer : List Metric)
        → Room [] (rows_of trim_space buffer)
        → ((row p : RequestStatsHourly) → f (merged row p) ≡ f row + f p)
        → (k : MetricKey) → sum_at f k (entries buffer) ≡ sum_at f k (rows_of trim_space buffer)
    sum_at-entries f [] room adds k = refl
    sum_at-entries f (m ∷ buffer) room adds k = omega (
      arith,
      sum_at-Permᴰ f k (ranges (aggregate trim_space [] (m ∷ buffer))),
      ap (sum_at f k) (aggregate-upsert_each trim_space [] (m ∷ buffer) room),
      sum_at-upsert_each f adds k (rows_of trim_space (m ∷ buffer)) [],
    )

    max_at-entries :
        (f : RequestStatsHourly → ℕ) (buffer : List Metric)
        → Room [] (rows_of trim_space buffer)
        → ((row p : RequestStatsHourly) → f (merged row p) ≡ max (f row) (f p))
        → (k : MetricKey) → max_at f k (entries buffer) ≡ max_at f k (rows_of trim_space buffer)
    max_at-entries f [] room adds k = refl
    max_at-entries f (m ∷ buffer) room adds k = omega (
      arith,
      max_at-Permᴰ f k (ranges (aggregate trim_space [] (m ∷ buffer))),
      ap (max_at f k) (aggregate-upsert_each trim_space [] (m ∷ buffer) room),
      max_at-upsert_each f adds k (rows_of trim_space (m ∷ buffer)) [],
    )

    load-entries :
        (buffer : List Metric) (k : MetricKey)
        → Room [] (rows_of trim_space buffer)
        → sum_at load k (entries buffer) ≤ sum_at load k (rows_of trim_space buffer)
    load-entries [] k room = omega arith
    load-entries (m ∷ buffer) k room = omega (
      arith,
      sum_at-Permᴰ load k (ranges (aggregate trim_space [] (m ∷ buffer))),
      ap (sum_at load k) (aggregate-upsert_each trim_space [] (m ∷ buffer) room),
      sum_at-upsert_each-le load load-merged k (rows_of trim_space (m ∷ buffer)) [],
    )

    pub flush-entries :
        (buffer : List Metric) (t : StatsTables)
        → Room t.request_stats_hourly (rows_of trim_space buffer)
        → flush trim_space order fault buffer t
          ≡ record t { request_stats_hourly = upsert_each (entries buffer) t.request_stats_hourly }
    unfolding flush upsert_each
    flush-entries [] t room = refl
    flush-entries (m ∷ buffer) t room =
        record_each-upsert_each fault works (entries (m ∷ buffer)) t
          λ k. omega (arith, room k, load-entries (m ∷ buffer) k (λ j. omega (arith, room j)))

    -- The room that is left after a flush.
    pub load-flush :
        (buffer : List Metric) (t : StatsTables)
        → Room t.request_stats_hourly (rows_of trim_space buffer)
        → (k : MetricKey)
        → sum_at load k (flush trim_space order fault buffer t).request_stats_hourly
          ≤ sum_at load k t.request_stats_hourly + sum_at load k (rows_of trim_space buffer)
    load-flush buffer t room k = omega (
      arith,
      ap (λ (s : StatsTables). sum_at load k s.request_stats_hourly) (flush-entries buffer t room),
      sum_at-upsert_each-le load load-merged k (entries buffer) t.request_stats_hourly,
      load-entries buffer k (λ j. omega (arith, room j)),
    )

    ledger_of-entries :
        (buffer : List Metric) (t : StatsTables) (k : MetricKey)
        → Room t.request_stats_hourly (rows_of trim_space buffer)
        → ledger_of (upsert_each (entries buffer) t.request_stats_hourly) k
          ≡ joined (ledger_of t.request_stats_hourly k) (ledger_of (rows_of trim_space buffer) k)
    ledger_of-entries buffer t k room = ground (
      arith,
      sum_at-upsert_each (λ r. r.request_count) (λ row p. refl) k (entries buffer)
          t.request_stats_hourly,
      sum_at-upsert_each (λ r. r.total_duration_ms) (λ row p. refl) k (entries buffer)
          t.request_stats_hourly,
      max_at-upsert_each (λ r. r.max_duration_ms) (λ row p. refl) k (entries buffer)
          t.request_stats_hourly,
      sum_at-entries (λ r. r.request_count) buffer alone (λ row p. refl) k,
      sum_at-entries (λ r. r.total_duration_ms) buffer alone (λ row p. refl) k,
      max_at-entries (λ r. r.max_duration_ms) buffer alone (λ row p. refl) k,
    )
      where
        alone : Room [] (rows_of trim_space buffer)
        alone j = omega (arith, room j)

    pub ledger_of-flush :
        (buffer : List Metric) (t : StatsTables) (k : MetricKey)
        → Room t.request_stats_hourly (rows_of trim_space buffer)
        → ledger_of (flush trim_space order fault buffer t).request_stats_hourly k
          ≡ joined (ledger_of t.request_stats_hourly k) (ledger_of (rows_of trim_space buffer) k)
    ledger_of-flush buffer t k room =
        ap (λ (s : StatsTables). ledger_of s.request_stats_hourly k) (flush-entries buffer t room)
        ∙ ledger_of-entries buffer t k room

    -- Where no statement fails and the numbers have room in the columns, a flush of a buffer changes
    -- the table of statistics, as a ledger with one cell for each key, as if the requests were noted
    -- one by one, whatever the order in which the map of the aggregates is ranged over; it changes
    -- no recorded error.
    pub flush-note_each :
        (buffer : List Metric) (t : StatsTables)
        → Room t.request_stats_hourly (rows_of trim_space buffer)
        → (ledger_of (flush trim_space order fault buffer t).request_stats_hourly
            ≡ note_each trim_space buffer (ledger_of t.request_stats_hourly))
          × ((flush trim_space order fault buffer t).request_errors ≡ t.request_errors)
    flush-note_each buffer t room = (
      fun_ext λ k.
          ledger_of-flush buffer t k room
          ∙ sym (note_each-rows_of trim_space buffer (ledger_of t.request_stats_hourly) k),
      ap (λ (s : StatsTables). s.request_errors) (flush-entries buffer t room),
    )
