-- ===== src/Admin/Conserved.antt =====
-- Where the metrics are that the channel has taken: written, in the buffer, or in the channel.
use mathlib.Core.Path.{subst}
use mathlib.Core.List.{Permᴰ, append_assoc}
use cubesync.Prelude.{
  ℕ, ◌≡◌, refl, sym, ap, ◌∙◌, String, Bool, true, false, List, [], ◌∷◌, ◌++◌, if◌then◌else◌,
  if_both, ltb, leb, length, arith,
}
use cubesync.Admin.{Metric, ErrorEvent}
use cubesync.Admin.Tables.{RequestStatsHourly, StatsTables, StatsQuery, Faults}
use cubesync.Admin.Flush.{flush, flush_errors, run_cleanup}
use cubesync.Admin.Upserts.{sum_at, load}
use cubesync.Admin.Tally.{rows_of, Room}
use cubesync.Admin.Shows.{
  Shows, Shows-start, Shows-later, Shows-flush, Shows-cleanup, Shows-errors, sum_at-rows_of,
}
use cubesync.Admin.Collector.{
  Phase, Collector, capacity, offered, noticed, started, take_metric, take_error, flush_all,
  LoopStep, receives_metric, receives_error, ticks, cleans, stops, drains_metric, drains_error,
  finishes, CallStep, passes, checks_request, sends_request, checks_error, sends_error, shuts_down,
  closes_stop, Run, begins, collects, calls,
}

over : {P : Type 0} (p : Phase) → p ≡ Phase.serving → p ≡ Phase.done → P
over p e d = absurd (cc (sym e ∙ d))

draining_over : {P : Type 0} (p : Phase) → p ≡ Phase.draining → p ≡ Phase.done → P
draining_over p e d = absurd (cc (sym e ∙ d))

module _ (trim_space : String → String) (before : List RequestStatsHourly) where
  pub record Accounted (accepted buffer queue : List Metric) (rows : List RequestStatsHourly)
      (now : ℕ) : Type 0 where
    pub written : List Metric
    pub split : accepted ≡ written ++ (buffer ++ queue)
    pub shows : Shows trim_space before rows written now

  -- Every metric that the channel has taken is counted once: it is written, in the buffer, or in
  -- the channel. After the end the buffer is empty.
  pub record Conserved (s : Collector) : Type 0 where
    pub accounted : Accounted s.accepted s.buffer s.metrics s.tables.request_stats_hourly s.now
    pub ended : s.phase ≡ Phase.done → s.buffer ≡ []

  Room-front :
      {accepted : List Metric} (front back : List Metric)
      → accepted ≡ front ++ back
      → Room before (rows_of trim_space accepted)
      → Room before (rows_of trim_space front)
  Room-front front back e room k = omega (
    arith,
    room k,
    ap (λ ms. sum_at load k (rows_of trim_space ms)) e,
    sum_at-rows_of trim_space load k front back,
  )

  Accounted-receive :
      {accepted buffer queue rest : List Metric} {rows : List RequestStatsHourly} {now : ℕ}
      (m : Metric)
      → queue ≡ m ∷ rest
      → Accounted accepted buffer queue rows now
      → Accounted accepted (buffer ++ m ∷ []) rest rows now
  Accounted-receive {buffer = buffer} {rest = rest} m e h = record {
    written = h.written;
    split =
        h.split
        ∙ ap (λ q. h.written ++ (buffer ++ q)) e
        ∙ ap (λ l. h.written ++ l) (sym (append_assoc buffer (m ∷ []) rest));
    shows = h.shows;
  }

  Accounted-offer :
      {accepted buffer queue : List Metric} {rows : List RequestStatsHourly} {now : ℕ} (m : Metric)
      → Accounted accepted buffer queue rows now
      → Accounted (noticed m queue accepted) buffer (offered m queue) rows now
  Accounted-offer {accepted} {buffer} {queue} {rows} {now} m h =
      by_room (ltb (length queue) capacity)
    where
      longer : Accounted (accepted ++ m ∷ []) buffer (queue ++ m ∷ []) rows now
      longer = record {
        written = h.written;
        split =
            ap (λ l. l ++ m ∷ []) h.split
            ∙ append_assoc h.written (buffer ++ queue) (m ∷ [])
            ∙ ap (λ l. h.written ++ l) (append_assoc buffer queue (m ∷ []));
        shows = h.shows;
      }

      by_room :
          (b : Bool)
          → Accounted
              (if b then accepted ++ m ∷ [] else accepted)
              buffer
              (if b then queue ++ m ∷ [] else queue)
              rows
              now
      by_room true = longer
      by_room false = h

  module _ (order : List RequestStatsHourly → List RequestStatsHourly) (fault : Faults)
      (works : (q : StatsQuery) (t : StatsTables) → fault q t ≡ false)
      (ranges : (rows : List RequestStatsHourly) → Permᴰ (order rows) rows) where
    Accounted-flush :
        {accepted queue : List Metric} {now : ℕ} (buffer : List Metric) (t : StatsTables)
        → Room before (rows_of trim_space accepted)
        → Accounted accepted buffer queue t.request_stats_hourly now
        → Accounted accepted [] queue
            (flush trim_space order fault buffer t).request_stats_hourly
            now
    Accounted-flush {queue = queue} buffer t room h = record {
      written = h.written ++ buffer;
      split = h.split ∙ sym (append_assoc h.written buffer queue);
      shows =
          Shows-flush trim_space order fault works ranges buffer t
            (Room-front (h.written ++ buffer) queue
              (h.split ∙ sym (append_assoc h.written buffer queue)) room)
            h.shows;
    }

    Accounted-cleanup :
        {accepted buffer queue : List Metric} {now : ℕ} (t : StatsTables)
        → Accounted accepted buffer queue t.request_stats_hourly now
        → Accounted accepted buffer queue (run_cleanup fault now t).request_stats_hourly now
    Accounted-cleanup t h = record {
      written = h.written;
      split = h.split;
      shows = Shows-cleanup trim_space order fault works ranges t h.shows;
    }

    Accounted-report :
        {accepted buffer queue : List Metric} {now : ℕ} (at : ℕ) (errors : List ErrorEvent)
        (t : StatsTables)
        → Accounted accepted buffer queue t.request_stats_hourly now
        → Accounted accepted buffer queue
            (flush_errors trim_space fault at errors t).request_stats_hourly
            now
    Accounted-report at errors t h = record {
      written = h.written;
      split = h.split;
      shows = Shows-errors trim_space order fault works ranges at errors t h.shows;
    }

    Conserved-receive :
        (s : Collector) (m : Metric) (rest : List Metric)
        → s.phase ≡ Phase.serving
        → s.metrics ≡ m ∷ rest
        → Room before (rows_of trim_space s.accepted)
        → Conserved s
        → Conserved (take_metric trim_space order fault m (record s { metrics = rest }))
    unfolding take_metric
    Conserved-receive s m rest p e room h =
        let taken = Accounted-receive m e h.accounted in
        if_both Conserved (leb 200 (length (s.buffer ++ m ∷ [])))
          (record {
            accounted = Accounted-flush (s.buffer ++ m ∷ []) s.tables room taken;
            ended = over s.phase p;
          })
          (record { accounted = taken; ended = over s.phase p })

    Conserved-report :
        (s : Collector) (e : ErrorEvent) (rest : List ErrorEvent)
        → Conserved s
        → Conserved (take_error trim_space order fault e (record s { error_logs = rest }))
    unfolding take_error
    Conserved-report s e rest h =
        if_both Conserved (leb 100 (length (s.err_buffer ++ e ∷ [])))
          (record {
            accounted = Accounted-report s.now (s.err_buffer ++ e ∷ []) s.tables h.accounted;
            ended = h.ended;
          })
          (record { accounted = h.accounted; ended = h.ended })

    Conserved-flush_all :
        (s : Collector)
        → Room before (rows_of trim_space s.accepted)
        → Conserved s
        → Accounted s.accepted [] s.metrics
            (flush_all trim_space order fault s).tables.request_stats_hourly
            s.now
    unfolding flush_all
    Conserved-flush_all s room h =
        Accounted-report s.now s.err_buffer (flush trim_space order fault s.buffer s.tables)
          (Accounted-flush s.buffer s.tables room h.accounted)

    Conserved-loop :
        {s s' : Collector}
        → LoopStep trim_space order fault s s'
        → Room before (rows_of trim_space s.accepted)
        → Conserved s
        → Conserved s'
    unfolding flush_all
    Conserved-loop (receives_metric s m rest p e) room h = Conserved-receive s m rest p e room h
    Conserved-loop (receives_error s e rest p q) room h = Conserved-report s e rest h
    Conserved-loop (ticks s p) room h = record {
      accounted = Conserved-flush_all s room h;
      ended = λ d. refl;
    }
    Conserved-loop (cleans s p) room h = record {
      accounted = Accounted-cleanup s.tables h.accounted;
      ended = h.ended;
    }
    Conserved-loop (stops s p q) room h = record {
      accounted = h.accounted;
      ended = λ d. absurd (cc d);
    }
    Conserved-loop (drains_metric s m rest p e) room h = record {
      accounted = Accounted-receive m e h.accounted;
      ended = draining_over s.phase p;
    }
    Conserved-loop (drains_error s e rest p q) room h = record {
      accounted = h.accounted;
      ended = h.ended;
    }
    Conserved-loop (finishes s p e q) room h = record {
      accounted = Conserved-flush_all s room h;
      ended = λ d. refl;
    }

    accepted-loop :
        {s s' : Collector} → LoopStep trim_space order fault s s' → s'.accepted ≡ s.accepted
    unfolding flush_all take_metric take_error
    accepted-loop (receives_metric s m rest p e) =
        if_both (λ (c : Collector). c.accepted ≡ s.accepted) (leb 200 (length (s.buffer ++ m ∷ [])))
          refl refl
    accepted-loop (receives_error s e rest p q) =
        if_both (λ (c : Collector). c.accepted ≡ s.accepted)
          (leb 100 (length (s.err_buffer ++ e ∷ []))) refl refl
    accepted-loop (ticks s p) = refl
    accepted-loop (cleans s p) = refl
    accepted-loop (stops s p q) = refl
    accepted-loop (drains_metric s m rest p e) = refl
    accepted-loop (drains_error s e rest p q) = refl
    accepted-loop (finishes s p e q) = refl

    Conserved-call :
        {s s' : Collector} → CallStep trim_space order fault s s' → Conserved s → Conserved s'
    Conserved-call (passes s n) h = record {
      accounted = record {
        written = h.accounted.written;
        split = h.accounted.split;
        shows = Shows-later trim_space n h.accounted.shows;
      };
      ended = h.ended;
    }
    Conserved-call (checks_request s at method route status duration m e) h = record {
      accounted = h.accounted;
      ended = h.ended;
    }
    Conserved-call (sends_request s front back m e) h = record {
      accounted = Accounted-offer m h.accounted;
      ended = h.ended;
    }
    Conserved-call (checks_error s user method route status code message e q) h = record {
      accounted = h.accounted;
      ended = h.ended;
    }
    Conserved-call (sends_error s front back e q) h = record {
      accounted = h.accounted;
      ended = h.ended;
    }
    Conserved-call (shuts_down s) h = record { accounted = h.accounted; ended = h.ended }
    Conserved-call (closes_stop s p) h = record { accounted = h.accounted; ended = h.ended }

    Room-noticed :
        (m : Metric) (queue accepted : List Metric)
        → Room before (rows_of trim_space (noticed m queue accepted))
        → Room before (rows_of trim_space accepted)
    Room-noticed m queue accepted =
        if_both
          (λ l. Room before (rows_of trim_space l) → Room before (rows_of trim_space accepted))
          (ltb (length queue) capacity) (Room-front accepted (m ∷ []) refl) (λ room. room)

    Room-call :
        {s s' : Collector}
        → CallStep trim_space order fault s s'
        → Room before (rows_of trim_space s'.accepted)
        → Room before (rows_of trim_space s.accepted)
    Room-call (passes s n) room = room
    Room-call (checks_request s at method route status duration m e) room = room
    Room-call (sends_request s front back m e) room = Room-noticed m s.metrics s.accepted room
    Room-call (checks_error s user method route status code message e q) room = room
    Room-call (sends_error s front back e q) room = room
    Room-call (shuts_down s) room = room
    Room-call (closes_stop s p) room = room

module _ (trim_space : String → String) (order : List RequestStatsHourly → List RequestStatsHourly)
    (fault : Faults) where
  -- The statistics as the first cleanup leaves them.
  abbrev pub first_rows : ℕ → StatsTables → List RequestStatsHourly
  first_rows now t = (started trim_space order fault now t).tables.request_stats_hourly

  -- Where no statement fails and the numbers have room in the columns, in every state that the
  -- collector reaches, the metrics that its channel has taken are, in their order, those written,
  -- those in the buffer and those in the channel; under every hour of the last 90 days the table
  -- counts those written, besides what it had after the first cleanup; and after the end the buffer
  -- is empty.
  pub Run-Conserved :
      (now : ℕ) (t : StatsTables) (s : Collector)
      → ((q : StatsQuery) (u : StatsTables) → fault q u ≡ false)
      → ((rows : List RequestStatsHourly) → Permᴰ (order rows) rows)
      → Run trim_space order fault (started trim_space order fault now t) s
      → Room (first_rows now t) (rows_of trim_space s.accepted)
      → Conserved trim_space (first_rows now t) s
  unfolding started
  Run-Conserved now t s works ranges begins room = record {
    accounted = record {
      written = [];
      split = refl;
      shows = Shows-start trim_space (first_rows now t) now;
    };
    ended = λ d. refl;
  }
  Run-Conserved now t s works ranges (collects r step) room =
      let room' =
        subst (λ l. Room (first_rows now t) (rows_of trim_space l))
          (accepted-loop trim_space (first_rows now t) order fault works ranges step) room in
      Conserved-loop trim_space (first_rows now t) order fault works ranges step room'
        (Run-Conserved now t _ works ranges r room')
  Run-Conserved now t s works ranges (calls r step) room =
      let room' = Room-call trim_space (first_rows now t) order fault works ranges step room in
      Conserved-call trim_space (first_rows now t) order fault works ranges step
        (Run-Conserved now t _ works ranges r room')
