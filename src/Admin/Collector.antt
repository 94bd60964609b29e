-- ===== src/Admin/Collector.antt =====
-- internal/admin/service.go: NewService, RecordRequestAsync, RecordErrorAsync, flushLoop and Shutdown,
-- as steps of the callers and of the goroutine that collects. A call tests the shutdown flag in one
-- step and sends in a later one; a send into a full channel drops what it sends. Where several cases
-- of a select are ready, any of them is taken.
use cubesync.Prelude.{
  ℕ, ◌+◌, ◌≡◌, String, Bool, true, false, ◌||◌, Option, none, some, List, [], ◌∷◌, ◌++◌, ltb, leb,
  ◌==◌, if◌then◌else◌, length, ℤ, pos, eqb_ℤ,
}
use cubesync.Admin.{Metric, ErrorEvent, int32_of, should_skip_route}
use cubesync.Admin.Tables.{RequestStatsHourly, StatsTables, Faults}
use cubesync.Admin.Flush.{flush, flush_errors, run_cleanup}

pub data Phase : Type 0 where
  serving draining done : Phase

-- `sending` and `reporting` are what the calls that passed the tests are about to send. `accepted`
-- is what the channel of metrics has taken since the start; no code reads it.
pub record Collector : Type 0 where
  pub sending : List Metric
  pub reporting : List ErrorEvent
  pub metrics : List Metric
  pub error_logs : List ErrorEvent
  pub buffer : List Metric
  pub err_buffer : List ErrorEvent
  pub tables : StatsTables
  pub shutdown : Bool
  pub stopped : Bool
  pub phase : Phase
  pub now : ℕ
  pub accepted : List Metric

-- The tests of RecordRequestAsync, and the metric that it sends.
unfoldable pub request_metric : Bool → ℕ → String → String → ℤ → ℤ → Option Metric
unfolding should_skip_route
request_metric shutdown at method route status duration =
    if should_skip_route route || shutdown
    then none
    else some
        (record { method = method; route = route; status = status; duration = duration; at = at })

-- uuid.Nil stands for a request without a user.
abbrev pub null_uuid : ℕ → Option ℕ
null_uuid id = if id == 0 then none else some id

unfoldable pub request_error : Bool → ℕ → String → String → ℤ → String → String → Option ErrorEvent
unfolding should_skip_route
request_error shutdown user method route status code message =
    if should_skip_route route || shutdown || eqb_ℤ status (pos 401)
    then none
    else some (record {
      user_id = null_uuid user;
      method = method;
      route = route;
      status_code = int32_of status;
      code = code;
      message = message;
    })

-- The capacity of each channel
abbrev pub capacity : ℕ
capacity = 4096

-- A send with a default case.
abbrev pub offered : {A : Type 0} → A → List A → List A
offered x queue = if ltb (length queue) capacity then queue ++ x ∷ [] else queue

abbrev pub noticed : Metric → List Metric → List Metric → List Metric
noticed m queue accepted = if ltb (length queue) capacity then accepted ++ m ∷ [] else accepted

module _ (trim_space : String → String) (order : List RequestStatsHourly → List RequestStatsHourly)
    (fault : Faults) where
  -- The first cleanup comes before the loop.
  unfoldable pub started : ℕ → StatsTables → Collector
  started now t = record {
    sending = [];
    reporting = [];
    metrics = [];
    error_logs = [];
    buffer = [];
    err_buffer = [];
    tables = run_cleanup fault now t;
    shutdown = false;
    stopped = false;
    phase = Phase.serving;
    now = now;
    accepted = [];
  }

  unfoldable pub take_metric : Metric → Collector → Collector
  take_metric m s =
      if leb 200 (length (s.buffer ++ m ∷ []))
      then record s {
        buffer = [];
        tables = flush trim_space order fault (s.buffer ++ m ∷ []) s.tables;
      }
      else record s { buffer = s.buffer ++ m ∷ [] }

  unfoldable pub take_error : ErrorEvent → Collector → Collector
  take_error e s =
      if leb 100 (length (s.err_buffer ++ e ∷ []))
      then record s {
        err_buffer = [];
        tables = flush_errors trim_space fault s.now (s.err_buffer ++ e ∷ []) s.tables;
      }
      else record s { err_buffer = s.err_buffer ++ e ∷ [] }

  unfoldable pub flush_all : Collector → Collector
  flush_all s = record s {
    buffer = [];
    err_buffer = [];
    tables =
        flush_errors trim_space fault s.now s.err_buffer
          (flush trim_space order fault s.buffer s.tables);
  }

  -- One round of flushLoop.
  pub data LoopStep : Collector → Collector → Type 0 where
    receives_metric :
        (s : Collector) (m : Metric) (rest : List Metric)
        → s.phase ≡ Phase.serving
        → s.metrics ≡ m ∷ rest
        → LoopStep s (take_metric m (record s { metrics = rest }))
    receives_error :
        (s : Collector) (e : ErrorEvent) (rest : List ErrorEvent)
        → s.phase ≡ Phase.serving
        → s.error_logs ≡ e ∷ rest
        → LoopStep s (take_error e (record s { error_logs = rest }))
    ticks : (s : Collector) → s.phase ≡ Phase.serving → LoopStep s (flush_all s)
    cleans :
        (s : Collector)
        → s.phase ≡ Phase.serving
        → LoopStep s (record s { tables = run_cleanup fault s.now s.tables })
    stops :
        (s : Collector)
        → s.phase ≡ Phase.serving
        → s.stopped ≡ true
        → LoopStep s (record s { phase = Phase.draining })
    drains_metric :
        (s : Collector) (m : Metric) (rest : List Metric)
        → s.phase ≡ Phase.draining
        → s.metrics ≡ m ∷ rest
        → LoopStep s (record s { metrics = rest; buffer = s.buffer ++ m ∷ [] })
    drains_error :
        (s : Collector) (e : ErrorEvent) (rest : List ErrorEvent)
        → s.phase ≡ Phase.draining
        → s.error_logs ≡ e ∷ rest
        → LoopStep s (record s { error_logs = rest; err_buffer = s.err_buffer ++ e ∷ [] })
    finishes :
        (s : Collector)
        → s.phase ≡ Phase.draining
        → s.metrics ≡ []
        → s.error_logs ≡ []
        → LoopStep s (record (flush_all s) { phase = Phase.done })

  -- What the callers, the shutdown and the clock do between the rounds.
  pub data CallStep : Collector → Collector → Type 0 where
    passes : (s : Collector) (n : ℕ) → CallStep s (record s { now = s.now + n })
    checks_request :
        (s : Collector) (at : ℕ) (method route : String) (status duration : ℤ) (m : Metric)
        → request_metric s.shutdown at method route status duration ≡ some m
        → CallStep s (record s { sending = m ∷ s.sending })
    sends_request :
        (s : Collector) (front back : List Metric) (m : Metric)
        → s.sending ≡ front ++ m ∷ back
        → CallStep s (record s {
          sending = front ++ back;
          metrics = offered m s.metrics;
          accepted = noticed m s.metrics s.accepted;
        })
    checks_error :
        (s : Collector) (user : ℕ) (method route : String) (status : ℤ) (code message : String)
        (e : ErrorEvent)
        → request_error s.shutdown user method route status code message ≡ some e
        → CallStep s (record s { reporting = e ∷ s.reporting })
    sends_error :
        (s : Collector) (front back : List ErrorEvent) (e : ErrorEvent)
        → s.reporting ≡ front ++ e ∷ back
        → CallStep s (record s { reporting = front ++ back; error_logs = offered e s.error_logs })
    shuts_down : (s : Collector) → CallStep s (record s { shutdown = true })
    closes_stop : (s : Collector) → s.shutdown ≡ true → CallStep s (record s { stopped = true })

  pub data Run (start : Collector) : Collector → Type 0 where
    begins : Run start start
    collects : {s s' : Collector} → Run start s → LoopStep s s' → Run start s'
    calls : {s s' : Collector} → Run start s → CallStep s s' → Run start s'
