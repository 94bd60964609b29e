-- ===== src/Admin/Written.antt =====
-- What the last flushes leave in the tables.
use mathlib.Core.List.{Permᴰ, append-nil}
use cubesync.Prelude.{ℕ, suc, ◌≡◌, refl, sym, ap, ◌∙◌, String, false, List, [], ◌∷◌, ◌++◌, map}
use cubesync.Admin.{Metric, ErrorEvent}
use cubesync.Admin.Tables.{
  RequestStatsHourly, RequestError, CopyRequestErrorsParams, StatsTables, StatsQuery, Faults,
}
use cubesync.Admin.Records.{numbered, copy_errors, copy_request_errors}
use cubesync.Admin.Flush.{error_row, flush, flush_errors}
use cubesync.Admin.Tally.{rows_of, Room}
use cubesync.Admin.Ledger.{ledger_of, note_each, flush-note_each}
use cubesync.Admin.Shows.{run_lem, flush_errors_lem}

abbrev pub event_of : RequestError → CopyRequestErrorsParams
event_of e = e.event

event_of-numbered :
    (now id : ℕ) (ps : List CopyRequestErrorsParams) → map event_of (numbered now id ps) ≡ ps
event_of-numbered now id [] = refl
event_of-numbered now id (p ∷ ps) = ap (p ∷◌) (event_of-numbered now (suc id) ps)

events-append :
    (xs ys : List RequestError) → map event_of (xs ++ ys) ≡ map event_of xs ++ map event_of ys
events-append [] ys = refl
events-append (x ∷ xs) ys = ap (event_of x ∷◌) (events-append xs ys)

-- From one state of the tables to another, these requests and errors are written and nothing else:
-- the requests in the ledger of the statistics, the errors after the earlier ones, in their order.
pub record Written (trim_space : String → String) (metrics : List Metric) (errors : List ErrorEvent)
    (before after : StatsTables) : Type 0 where
  pub requests :
      ledger_of after.request_stats_hourly
      ≡ note_each trim_space metrics (ledger_of before.request_stats_hourly)
  pub error_log :
      map event_of after.request_errors
      ≡ map event_of before.request_errors ++ map (error_row trim_space) errors

module _ (trim_space : String → String) (order : List RequestStatsHourly → List RequestStatsHourly)
    (fault : Faults) (works : (q : StatsQuery) (t : StatsTables) → fault q t ≡ false)
    (ranges : (rows : List RequestStatsHourly) → Permᴰ (order rows) rows) where
  flush_errors-events :
      (now : ℕ) (errors : List ErrorEvent) (t : StatsTables)
      → map event_of (flush_errors trim_space fault now errors t).request_errors
        ≡ map event_of t.request_errors ++ map (error_row trim_space) errors
  unfolding flush_errors copy_request_errors
  flush_errors-events now [] t = sym (append-nil (map event_of t.request_errors))
  flush_errors-events now (e ∷ errors) t =
      let ps = map (error_row trim_space) (e ∷ errors) in
      ap (λ r. map event_of r.1.request_errors)
        (run_lem trim_space order fault works ranges StatsQuery.copy_request_errors
          (copy_errors now ps) t)
      ∙ events-append t.request_errors (numbered now t.last_error_id ps)
      ∙ ap (λ l. map event_of t.request_errors ++ l) (event_of-numbered now t.last_error_id ps)

  -- The flushes at the end of the loop.
  pub flush-Written :
      (now : ℕ) (metrics : List Metric) (errors : List ErrorEvent) (t : StatsTables)
      → Room t.request_stats_hourly (rows_of trim_space metrics)
      → Written trim_space metrics errors t
          (flush_errors trim_space fault now errors (flush trim_space order fault metrics t))
  flush-Written now metrics errors t room =
      let noted = flush-note_each trim_space order fault works ranges metrics t room in
      record {
        requests =
            ap ledger_of (
              flush_errors_lem trim_space order fault works ranges now errors
                (flush trim_space order fault metrics t))
            ∙ noted.0;
        error_log =
            flush_errors-events now errors (flush trim_space order fault metrics t)
            ∙ ap (λ l. map event_of l ++ map (error_row trim_space) errors) noted.1;
      }
