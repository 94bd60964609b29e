-- ===== src/Admin/Bounds.antt =====
-- The sizes of the channels and of the buffers.
use cubesync.Prelude.{
  ℕ, ◌≤◌, ◌<◌, ◌≡◌, sym, ap, ◌∙◌, String, List, [], ◌∷◌, ◌++◌, leb, length, length-append, arith,
  Bool-cases, inl, inr,
}
use cubesync.Admin.{Metric, ErrorEvent}
use cubesync.Admin.Tables.{RequestStatsHourly, StatsTables, Faults}
use cubesync.Admin.Collector.{
  Phase, Collector, offered, started, take_metric, take_error, flush_all, LoopStep, receives_metric,
  receives_error, ticks, cleans, stops, drains_metric, drains_error, finishes, CallStep, passes,
  checks_request, sends_request, checks_error, sends_error, shuts_down, closes_stop, Run, begins,
  collects, calls,
}

-- While the collector serves, its buffers are short.
pub record IsBounded (s : Collector) : Type 0 where
  pub metrics : length s.metrics ≤ 4096
  pub error_logs : length s.error_logs ≤ 4096
  pub buffer : s.phase ≡ Phase.serving → length s.buffer < 200
  pub err_buffer : s.phase ≡ Phase.serving → length s.err_buffer < 100

length-offered :
    {A : Type 0} (x : A) (queue : List A) → length queue ≤ 4096 → length (offered x queue) ≤ 4096
length-offered x queue h = ground (arith, length-append queue (x ∷ []))

shorter :
    {A : Type 0} (x : A) (rest queue : List A)
    → queue ≡ x ∷ rest
    → length queue ≤ 4096
    → length rest ≤ 4096
shorter x rest queue e h = omega (arith, ap length e)

module _ (trim_space : String → String) (order : List RequestStatsHourly → List RequestStatsHourly)
    (fault : Faults) where
  IsBounded-receive :
      (s : Collector) (m : Metric) (rest : List Metric)
      → s.metrics ≡ m ∷ rest
      → IsBounded s
      → IsBounded (take_metric trim_space order fault m (record s { metrics = rest }))
  unfolding take_metric
  IsBounded-receive s m rest e h = elim (Bool-cases (leb 200 (length (s.buffer ++ m ∷ [])))) [
    | inl full ↦ rw full (record {
      metrics = shorter m rest s.metrics e h.metrics;
      error_logs = h.error_logs;
      buffer = λ p. omega arith;
      err_buffer = h.err_buffer;
    })
    | inr short ↦ rw short (record {
      metrics = shorter m rest s.metrics e h.metrics;
      error_logs = h.error_logs;
      buffer = λ p. ground (arith, short);
      err_buffer = h.err_buffer;
    })
  ]

  IsBounded-report :
      (s : Collector) (e : ErrorEvent) (rest : List ErrorEvent)
      → s.error_logs ≡ e ∷ rest
      → IsBounded s
      → IsBounded (take_error trim_space order fault e (record s { error_logs = rest }))
  unfolding take_error
  IsBounded-report s e rest q h = elim (Bool-cases (leb 100 (length (s.err_buffer ++ e ∷ [])))) [
    | inl full ↦ rw full (record {
      metrics = h.metrics;
      error_logs = shorter e rest s.error_logs q h.error_logs;
      buffer = h.buffer;
      err_buffer = λ p. omega arith;
    })
    | inr short ↦ rw short (record {
      metrics = h.metrics;
      error_logs = shorter e rest s.error_logs q h.error_logs;
      buffer = h.buffer;
      err_buffer = λ p. ground (arith, short);
    })
  ]

  IsBounded-loop :
      {s s' : Collector} → LoopStep trim_space order fault s s' → IsBounded s → IsBounded s'
  unfolding flush_all
  IsBounded-loop (receives_metric s m rest p e) h = IsBounded-receive s m rest e h
  IsBounded-loop (receives_error s e rest p q) h = IsBounded-report s e rest q h
  IsBounded-loop (ticks s p) h = record {
    metrics = h.metrics;
    error_logs = h.error_logs;
    buffer = λ p. omega arith;
    err_buffer = λ p. omega arith;
  }
  IsBounded-loop (cleans s p) h = record {
    metrics = h.metrics;
    error_logs = h.error_logs;
    buffer = h.buffer;
    err_buffer = h.err_buffer;
  }
  IsBounded-loop (stops s p q) h = record {
    metrics = h.metrics;
    error_logs = h.error_logs;
    buffer = λ d. absurd (cc d);
    err_buffer = λ d. absurd (cc d);
  }
  IsBounded-loop (drains_metric s m rest p e) h = record {
    metrics = shorter m rest s.metrics e h.metrics;
    error_logs = h.error_logs;
    buffer = λ d. absurd (cc (sym p ∙ d));
    err_buffer = h.err_buffer;
  }
  IsBounded-loop (drains_error s e rest p q) h = record {
    metrics = h.metrics;
    error_logs = shorter e rest s.error_logs q h.error_logs;
    buffer = h.buffer;
    err_buffer = λ d. absurd (cc (sym p ∙ d));
  }
  IsBounded-loop (finishes s p e q) h = record {
    metrics = h.metrics;
    error_logs = h.error_logs;
    buffer = λ d. absurd (cc d);
    err_buffer = λ d. absurd (cc d);
  }

  IsBounded-call :
      {s s' : Collector} → CallStep trim_space order fault s s' → IsBounded s → IsBounded s'
  IsBounded-call (passes s n) h = record {
    metrics = h.metrics;
    error_logs = h.error_logs;
    buffer = h.buffer;
    err_buffer = h.err_buffer;
  }
  IsBounded-call (checks_request s at method route status duration m e) h = record {
    metrics = h.metrics;
    error_logs = h.error_logs;
    buffer = h.buffer;
    err_buffer = h.err_buffer;
  }
  IsBounded-call (sends_request s front back m e) h = record {
    metrics = length-offered m s.metrics h.metrics;
    error_logs = h.error_logs;
    buffer = h.buffer;
    err_buffer = h.err_buffer;
  }
  IsBounded-call (checks_error s user method route status code message e q) h = record {
    metrics = h.metrics;
    error_logs = h.error_logs;
    buffer = h.buffer;
    err_buffer = h.err_buffer;
  }
  IsBounded-call (sends_error s front back e q) h = record {
    metrics = h.metrics;
    error_logs = length-offered e s.error_logs h.error_logs;
    buffer = h.buffer;
    err_buffer = h.err_buffer;
  }
  IsBounded-call (shuts_down s) h = record {
    metrics = h.metrics;
    error_logs = h.error_logs;
    buffer = h.buffer;
    err_buffer = h.err_buffer;
  }
  IsBounded-call (closes_stop s p) h = record {
    metrics = h.metrics;
    error_logs = h.error_logs;
    buffer = h.buffer;
    err_buffer = h.err_buffer;
  }

  -- In every state that the collector reaches, whatever statements fail, each channel has at most
  -- 4096 entries, and while the collector serves, the buffers have fewer than 200 metrics and fewer
  -- than 100 errors.
  pub Run-IsBounded :
      (now : ℕ) (t : StatsTables) (s : Collector)
      → Run trim_space order fault (started trim_space order fault now t) s
      → IsBounded s
  unfolding started
  Run-IsBounded now t s begins = record {
    metrics = omega arith;
    error_logs = omega arith;
    buffer = λ p. omega arith;
    err_buffer = λ p. omega arith;
  }
  Run-IsBounded now t s (collects r step) = IsBounded-loop step (Run-IsBounded now t _ r)
  Run-IsBounded now t s (calls r step) = IsBounded-call step (Run-IsBounded now t _ r)
