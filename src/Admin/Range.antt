-- ===== src/Admin/Range.antt =====
-- internal/admin/service.go: resolveRange, the range of time of a report.
use Prim.Native.Nat.{min}
use cubesync.Prelude.{
  ℕ, ◌+◌, ◌-◌, ◌*◌, ◌≤◌, ◌<◌, ◌≡◌, ◌≢◌, ◌↔◌, ◌⊎◌, String, not, ◌&&◌, ◌||◌, ltb, ◌==◌, if◌then◌else◌,
  str_eq, eq_iff, arith,
}
use cubesync.Store.Queries.{max_int64}
use cubesync.Sync.Validate.{zero_time}
use cubesync.Admin.Records.{day}

-- What a report answers: admin.Error with its code and message, or an error of the database.
pub data Answer (A : Type 0) : Type 0 where
  answer : A → Answer A
  refused : String → String → Answer A
  failure : Answer A

pub record QueryRange : Type 0 where
  pub from : ℕ
  pub to : ℕ
  pub interval : String

-- strings.TrimSpace and strings.ToLower
pub record Texts : Type 0 where
  pub trim_space : String → String
  pub to_lower : String → String

-- The times after both were tested for being absent.
abbrev pub check_times : String → ℕ → ℕ → Answer QueryRange
check_times interval from to =
    if from == zero_time || to == zero_time
    then refused "invalid_range" "from and to must both be provided"
    else if not (ltb from to)
    then refused "invalid_range" "from must be earlier than to"
    else if ltb (90 * day) (min (to - from) max_int64)
    then refused "invalid_range" "range cannot exceed 90 days"
    else answer (record { from = from; to = to; interval = interval })

-- Both absent: the last 24 hours.
abbrev pub check_interval : ℕ → QueryRange → String → Answer QueryRange
check_interval now query interval =
    if not (str_eq interval "hour") && not (str_eq interval "day")
    then refused "invalid_interval" "interval must be hour or day"
    else if query.from == zero_time && query.to == zero_time
    then check_times interval (now - day) now
    else check_times interval query.from query.to

abbrev pub interval_of : Texts → String → String
interval_of texts raw =
    let interval = texts.to_lower (texts.trim_space raw) in
    if str_eq interval "" then "hour" else interval

unfoldable pub resolve_range : Texts → ℕ → QueryRange → Answer QueryRange
resolve_range texts now query = check_interval now query (interval_of texts query.interval)

-- The range that a query with these times has: in order, and at most 90 days long.
abbrev pub Times : String → ℕ → ℕ → QueryRange → Type 0
Times interval from to r =
    (r.from ≡ from)
    × (r.to ≡ to)
    × (r.interval ≡ interval)
    × (from ≢ zero_time)
    × (to ≢ zero_time)
    × (from < to)
    × (to ≤ from + 90 * day)

check_times_sound :
    (interval : String) (from to : ℕ) (r : QueryRange)
    → check_times interval from to ≡ answer r
    → Times interval from to r
check_times_sound interval from to r e = ground (arith, e)

check_times_complete :
    (interval : String) (from to : ℕ) (r : QueryRange)
    → Times interval from to r
    → check_times interval from to ≡ answer r
check_times_complete interval from to r h = ground (arith, h)

-- What a query asks for: by the hour or by the day, and the last 24 hours where no time is given.
abbrev pub Resolves : Texts → ℕ → QueryRange → QueryRange → Type 0
Resolves texts now query r =
    let interval = interval_of texts query.interval in
    ((interval ≡ "hour") ⊎ (interval ≡ "day"))
    × (((query.from ≡ zero_time) × (query.to ≡ zero_time) × Times interval (now - day) now r)
        ⊎ Times interval query.from query.to r)

resolve_by :
    (now : ℕ) (query : QueryRange) (interval : String) (r : QueryRange)
    → (check_interval now query interval ≡ answer r) ↔ (
        ((interval ≡ "hour") ⊎ (interval ≡ "day"))
        × (((query.from ≡ zero_time) × (query.to ≡ zero_time) × Times interval (now - day) now r)
            ⊎ Times interval query.from query.to r))
resolve_by now query interval r = (
  λ e. ground (
    arith,
    e,
    eq_iff interval "hour",
    eq_iff interval "day",
    check_times_sound interval (now - day) now r,
    check_times_sound interval query.from query.to r,
  ),
  λ h. ground (
    arith,
    h,
    eq_iff interval "hour",
    eq_iff interval "day",
    check_times_complete interval (now - day) now r,
    check_times_complete interval query.from query.to r,
  ),
)

-- A query is answered with a range exactly if the interval is hour or day, hour where none is named,
-- and the times, which are the last 24 hours where neither is given, are given, in order, and at
-- most 90 days apart; the range has that interval and those times.
pub resolve_range-Resolves :
    (texts : Texts) (now : ℕ) (query r : QueryRange)
    → (resolve_range texts now query ≡ answer r) ↔ Resolves texts now query r
unfolding resolve_range
resolve_range-Resolves texts now query r = resolve_by now query (interval_of texts query.interval) r
