-- ===== src/Admin/Drain.antt =====
-- The end of flushLoop: what the rounds after the stop do, in whatever order they drain.
use mathlib.Core.Path.{subst}
use mathlib.Core.List.{Permᴰ, append_assoc, append-nil}
use cubesync.Prelude.{
  ℕ, zero, suc, ◌+◌, ◌≤◌, ◌≡◌, refl, sym, ap, ◌∙◌, ◌⊎◌, inl, inr, String, false, List, [], ◌∷◌,
  ◌++◌, length, arith,
}
use cubesync.Admin.{Metric, ErrorEvent}
use cubesync.Admin.Tables.{RequestStatsHourly, StatsTables, StatsQuery, Faults}
use cubesync.Admin.Flush.{flush, flush_errors}
use cubesync.Admin.Tally.{rows_of, Room}
use cubesync.Admin.Written.{Written, flush-Written}
use cubesync.Admin.Collector.{
  Phase, Collector, flush_all, LoopStep, receives_metric, receives_error, ticks, cleans, stops,
  drains_metric, drains_error, finishes,
}

-- What is left to drain.
abbrev pub left : Collector → ℕ
left s = length s.metrics + length s.error_logs

module _ (trim_space : String → String) (order : List RequestStatsHourly → List RequestStatsHourly)
    (fault : Faults) where
  abbrev pub Rounds : ℕ → Collector → Collector → Type 0
  Rounds zero s s' = s ≡ s'
  Rounds (suc n) s s' = (u : Collector) × LoopStep trim_space order fault s u × Rounds n u s'

  abbrev ended :
      Collector → List Metric → List ErrorEvent → List Metric → List ErrorEvent → Collector
  ended s metrics errors buffer err_buffer = record s {
    metrics = metrics;
    error_logs = errors;
    buffer = [];
    err_buffer = [];
    tables =
        flush_errors trim_space fault s.now err_buffer
          (flush trim_space order fault buffer s.tables);
    phase = Phase.done;
  }

  -- The channels are empty, and everything is flushed.
  abbrev drained : Collector → Collector
  drained s = ended s [] [] (s.buffer ++ s.metrics) (s.err_buffer ++ s.error_logs)

  serving_not : {P : Type 0} {p : Phase} → p ≡ Phase.serving → p ≡ Phase.draining → P
  serving_not e d = absurd (cc (sym e ∙ d))

  done_not :
      {P : Type 0} {s s' : Collector}
      → LoopStep trim_space order fault s s'
      → s.phase ≡ Phase.done
      → P
  done_not (receives_metric s m rest p e) d = absurd (cc (sym p ∙ d))
  done_not (receives_error s e rest p q) d = absurd (cc (sym p ∙ d))
  done_not (ticks s p) d = absurd (cc (sym p ∙ d))
  done_not (cleans s p) d = absurd (cc (sym p ∙ d))
  done_not (stops s p q) d = absurd (cc (sym p ∙ d))
  done_not (drains_metric s m rest p e) d = absurd (cc (sym p ∙ d))
  done_not (drains_error s e rest p q) d = absurd (cc (sym p ∙ d))
  done_not (finishes s p e q) d = absurd (cc (sym p ∙ d))

  -- A round of the drain takes one entry, or it is the last.
  abbrev Drains : Collector → Collector → Type 0
  Drains s s' =
      ((s'.phase ≡ Phase.draining) × (left s ≡ suc (left s')) × (drained s' ≡ drained s))
      ⊎ ((left s ≡ 0) × (s' ≡ drained s))

  drain_round :
      {s s' : Collector}
      → LoopStep trim_space order fault s s'
      → s.phase ≡ Phase.draining
      → Drains s s'
  unfolding flush_all
  drain_round (receives_metric s m rest p e) d = serving_not p d
  drain_round (receives_error s e rest p q) d = serving_not p d
  drain_round (ticks s p) d = serving_not p d
  drain_round (cleans s p) d = serving_not p d
  drain_round (stops s p q) d = serving_not p d
  drain_round (drains_metric s m rest p e) d = inl (
    d,
    omega (arith, ap length e),
    ap (λ b. ended s [] [] b (s.err_buffer ++ s.error_logs))
        (append_assoc s.buffer (m ∷ []) rest ∙ ap (λ q. s.buffer ++ q) (sym e)),
  )
  drain_round (drains_error s e rest p q) d = inl (
    d,
    omega (arith, ap length q),
    ap (λ b. ended s [] [] (s.buffer ++ s.metrics) b)
        (append_assoc s.err_buffer (e ∷ []) rest ∙ ap (λ l. s.err_buffer ++ l) (sym q)),
  )
  drain_round (finishes s p e q) d = inr (
    omega (arith, ap length e, ap length q),
    ap (λ l. ended s l s.error_logs s.buffer s.err_buffer) e
        ∙ ap (λ l. ended s [] l s.buffer s.err_buffer) q
        ∙ ap (λ l. ended s [] [] l s.err_buffer)
            (sym (append-nil s.buffer) ∙ ap (λ l. s.buffer ++ l) (sym e))
        ∙ ap (λ l. ended s [] [] (s.buffer ++ s.metrics) l)
            (sym (append-nil s.err_buffer) ∙ ap (λ l. s.err_buffer ++ l) (sym q)),
  )

  no_more : (n : ℕ) (s s' : Collector) → Rounds n s s' → s.phase ≡ Phase.done → (n ≡ 0) × (s' ≡ s)
  no_more zero s s' r d = (refl, sym r)
  no_more (suc n) s s' (u, step, r) d = done_not step d

  drain-bounded :
      (n : ℕ) (s s' : Collector) → s.phase ≡ Phase.draining → Rounds n s s' → n ≤ suc (left s)
  drain-bounded zero s s' d r = omega arith
  drain-bounded (suc n) s s' d (u, step, r) = elim (drain_round step d) [
    | inl more ↦ omega (arith, more.1, drain-bounded n u s' more.0 r)
    | inr last ↦ omega (arith, (no_more n u s' r (ap (λ (c : Collector). c.phase) last.1)).0)
  ]

  drain_unique :
      (n : ℕ) (s s' : Collector)
      → s.phase ≡ Phase.draining
      → Rounds n s s'
      → s'.phase ≡ Phase.done
      → s' ≡ drained s
  drain_unique zero s s' d r e = absurd (cc (sym d ∙ ap (λ (c : Collector). c.phase) r ∙ e))
  drain_unique (suc n) s s' d (u, step, r) e = elim (drain_round step d) [
    | inl more ↦ drain_unique n u s' more.0 r e ∙ more.2
    | inr last ↦ (no_more n u s' r (ap (λ (c : Collector). c.phase) last.1)).1 ∙ last.1
  ]

  -- A draining collector can take a round.
  next_round :
      (s : Collector) (metrics : List Metric) (errors : List ErrorEvent)
      → s.metrics ≡ metrics
      → s.error_logs ≡ errors
      → s.phase ≡ Phase.draining
      → (u : Collector) × LoopStep trim_space order fault s u
  next_round s [] [] e q d = (_, finishes s d e q)
  next_round s [] (x ∷ errors) e q d = (_, drains_error s x errors d q)
  next_round s (m ∷ metrics) errors e q d = (_, drains_metric s m metrics d e)

  drain-exists :
      (n : ℕ) (s : Collector) → left s ≡ n → s.phase ≡ Phase.draining → Rounds (suc n) s (drained s)
  drain-exists zero s e d =
      let (u, step) = next_round s s.metrics s.error_logs refl refl d in
      elim (drain_round step d) [
        | inl more ↦ absurd (omega (arith, more.1, e))
        | inr last ↦ (u, step, last.1)
      ]
  drain-exists (suc n) s e d =
      let (u, step) = next_round s s.metrics s.error_logs refl refl d in
      elim (drain_round step d) [
        | inl more ↦ (
          u,
          step,
          subst (Rounds (suc n) u) more.2 (drain-exists n u (omega (arith, more.1, e)) more.0),
        )
        | inr last ↦ absurd (omega (arith, last.0, e))
      ]

  -- The end of the drain of a state.
  pub record Finished (s s' : Collector) : Type 0 where
    pub done : s'.phase ≡ Phase.done
    pub empty : (s'.metrics ≡ []) × (s'.error_logs ≡ [])
    pub flushed : (s'.buffer ≡ []) × (s'.err_buffer ≡ [])
    pub written :
        Written trim_space (s.buffer ++ s.metrics) (s.err_buffer ++ s.error_logs) s.tables s'.tables

  module _ (works : (q : StatsQuery) (t : StatsTables) → fault q t ≡ false)
      (ranges : (rows : List RequestStatsHourly) → Permᴰ (order rows) rows) (s : Collector)
      (room : Room s.tables.request_stats_hourly (rows_of trim_space (s.buffer ++ s.metrics))) where
    drained-Finished : Finished s (drained s)
    drained-Finished = record {
      done = refl;
      empty = (refl, refl);
      flushed = (refl, refl);
      written =
          flush-Written trim_space order fault works ranges s.now (s.buffer ++ s.metrics)
            (s.err_buffer ++ s.error_logs) s.tables room;
    }

    -- From the stop on the loop ends: however it chooses, it takes at most one round for each entry
    -- in the channels and one more, it can take that many, and where it ends the channels and the
    -- buffers are empty, and the tables have changed by all that was in them: the requests are
    -- noted in the ledger of the statistics, whatever the order in which the map of the aggregates
    -- is ranged over, and the errors appended to the earlier ones, in that order. No statement
    -- fails, the numbers have room in the columns, and nothing is sent between the rounds.
    pub drain-terminates :
        s.phase ≡ Phase.draining
        → ((n : ℕ) (s' : Collector)
            → Rounds n s s'
            → (n ≤ suc (left s)) × (s'.phase ≡ Phase.done → Finished s s'))
          × (s' : Collector) × Rounds (suc (left s)) s s'
          × Finished s s'
    drain-terminates d = (
      λ n s' r. (
        drain-bounded n s s' d r,
        λ e. subst (Finished s) (sym (drain_unique n s s' d r e)) drained-Finished,
      ),
      drained s,
      drain-exists (left s) s refl d,
      drained-Finished,
    )
