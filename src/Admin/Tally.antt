-- ===== src/Admin/Tally.antt =====
-- A flush with room in the columns, as the recording of one row for each request.
use cubesync.Prelude.{
  ℕ, ◌+◌, ◌^◌, ◌<◌, ◌≡◌, refl, ap, ◌∙◌, String, true, false, ◌&&◌, List, [], ◌∷◌, if◌then◌else◌,
  arith, Bool-cases, inl, inr,
}
use cubesync.Store.{Result, ok, err, failed}
use cubesync.Admin.{Metric}
use cubesync.Admin.Tables.{MetricKey, RequestStatsHourly, StatsTables, StatsQuery, Faults, run}
use cubesync.Admin.Records.{
  eqb_key, upsert, is_row, are_rows, record_request_stat, record_request_stat_statement,
}
use cubesync.Admin.Flush.{duration_ms, tally, key_of, aggregate, record_each, logged}
use cubesync.Admin.Upserts.{
  sum_at, upsert_each, load, load-merged, eqb_key_refl, sum_at-upsert-le, are_rows-load,
}

-- The row of one request.
abbrev pub row_of : MetricKey → ℕ → RequestStatsHourly
row_of k ms = record { key = k; request_count = 1; total_duration_ms = ms; max_duration_ms = ms }

abbrev pub rows_of : (String → String) → List Metric → List RequestStatsHourly
rows_of trim_space [] = []
rows_of trim_space (m ∷ ms) = row_of (key_of trim_space m) (duration_ms m) ∷ rows_of trim_space ms

-- There is room in the columns for more rows.
abbrev pub Room : List RequestStatsHourly → List RequestStatsHourly → Type 0
Room rows ps = (k : MetricKey) → sum_at load k rows + sum_at load k ps < 2 ^ 63

tally-upsert :
    (k : MetricKey) (ms : ℕ) (rows : List RequestStatsHourly)
    → sum_at load k rows + sum_at load k (row_of k ms ∷ []) < 2 ^ 63
    → tally k ms rows ≡ upsert (row_of k ms) rows
unfolding tally upsert
tally-upsert k ms [] room = ap (λ r. r ∷ []) (ground (arith, eqb_key_refl k))
tally-upsert k ms (row ∷ rows) room = elim (Bool-cases (eqb_key k row.key)) [
  | inl e ↦ rw e (ap (λ r. r ∷ rows) (ground (arith, e, room, eqb_key_refl k)))
  | inr e ↦ rw e (ap (λ rs. row ∷ rs) (tally-upsert k ms rows (omega (arith, room))))
]

Room-upsert :
    (p : RequestStatsHourly) (ps rows : List RequestStatsHourly)
    → Room rows (p ∷ ps)
    → Room (upsert p rows) ps
Room-upsert p ps rows room k = omega (arith, room k, sum_at-upsert-le load load-merged k p rows)

pub aggregate-upsert_each :
    (trim_space : String → String) (rows : List RequestStatsHourly) (buffer : List Metric)
    → Room rows (rows_of trim_space buffer)
    → aggregate trim_space rows buffer ≡ upsert_each (rows_of trim_space buffer) rows
unfolding aggregate upsert_each
aggregate-upsert_each trim_space rows [] room = refl
aggregate-upsert_each trim_space rows (m ∷ buffer) room =
    let k = key_of trim_space m in
    let p = row_of k (duration_ms m) in
    ap (λ r. aggregate trim_space r buffer)
      (tally-upsert k (duration_ms m) rows (omega (arith, room k)))
    ∙ aggregate-upsert_each trim_space (upsert p rows) buffer
        (Room-upsert p (rows_of trim_space buffer) rows room)

module _ (fault : Faults) (works : (q : StatsQuery) (t : StatsTables) → fault q t ≡ false) where
  record_request_stat-upsert :
      (p : RequestStatsHourly) (ps : List RequestStatsHourly) (t : StatsTables)
      → Room t.request_stats_hourly (p ∷ ps)
      → logged (record_request_stat fault p) t
        ≡ record t { request_stats_hourly = upsert p t.request_stats_hourly }
  unfolding record_request_stat run record_request_stat_statement
  record_request_stat-upsert p ps t room = after (
      ap (λ b. if b then (err failed, t) else record_request_stat_statement p t)
        (works StatsQuery.record_request_stat t)
      ∙ ap
          (λ b.
            if b
            then (ok tt, record t { request_stats_hourly = upsert p t.request_stats_hourly })
            else (err failed, t))
          both)
    where
      fits : is_row p ≡ true
      fits = ground (arith, room p.key, eqb_key_refl p.key)

      others : are_rows (upsert p t.request_stats_hourly) ≡ true
      others =
          are_rows-load (upsert p t.request_stats_hourly)
            λ k. omega (arith, Room-upsert p ps t.request_stats_hourly room k)

      both : (is_row p && are_rows (upsert p t.request_stats_hourly)) ≡ true
      both = rw fits others

      after : {r s : Result (Unit {0}) × StatsTables} → r ≡ s → r.1 ≡ s.1
      after e = ap (λ (r : Result (Unit {0}) × StatsTables). r.1) e

  pub record_each-upsert_each :
      (ps : List RequestStatsHourly) (t : StatsTables)
      → Room t.request_stats_hourly ps
      → record_each fault ps t
        ≡ record t { request_stats_hourly = upsert_each ps t.request_stats_hourly }
  unfolding record_each upsert_each
  record_each-upsert_each [] t room = refl
  record_each-upsert_each (p ∷ ps) t room =
      ap (record_each fault ps) (record_request_stat-upsert p ps t room)
      ∙ record_each-upsert_each ps
          (record t { request_stats_hourly = upsert p t.request_stats_hourly })
          (Room-upsert p ps t.request_stats_hourly room)
