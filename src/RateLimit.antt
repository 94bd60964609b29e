-- ===== src/RateLimit.antt =====
-- internal/httpapi/ratelimit.go: the table of visitors of ipRateLimiter, middleware and evictLoop.
-- The limiter of golang.org/x/time/rate is a parameter. The two readings of the clock under the
-- lock are one here.
pub mod Alone
mod Tests
use cubesync.Prelude.{
  ℕ, ◌+◌, ◌*◌, String, Bool, Option, none, some, List, [], ◌∷◌, if◌then◌else◌, str_eq, ltb,
}

-- rate.NewLimiter at the rate and burst of the table, and Allow at a time, with the limiter after it
pub record Limiters (L : Type 0) : Type 0 where
  pub new_limiter : L
  pub allow : ℕ → L → Bool × L

pub record Visitor (L : Type 0) : Type 0 where
  pub limiter : L
  pub last_seen : ℕ

-- The map from an address to its visitor
abbrev pub Visitors : Type 0 → Type 0
Visitors L = String → Option (Visitor L)

abbrev pub no_visitors : {L : Type 0} → Visitors L
no_visitors host = none

-- An hour, in nanoseconds
abbrev pub hour : ℕ
hour = 3600 * 1000000000

module _ {L : Type 0} (limiters : Limiters L) where
  abbrev pub limiter_of : Option (Visitor L) → L
  limiter_of none = limiters.new_limiter
  limiter_of (some v) = v.limiter

  -- What middleware does under the lock: whether the request is allowed, and the table after it.
  unfoldable pub visit : ℕ → String → Visitors L → Bool × Visitors L
  visit now host visitors =
      let r = limiters.allow now (limiter_of (visitors host)) in
      (
        r.0,
        λ h. if str_eq h host then some (record { limiter = r.1; last_seen = now }) else visitors h,
      )

  abbrev pub kept_visitor : ℕ → Option (Visitor L) → Option (Visitor L)
  kept_visitor now none = none
  kept_visitor now (some v) = if ltb (v.last_seen + hour) now then none else some v

  -- A tick of evictLoop
  unfoldable pub evict : ℕ → Visitors L → Visitors L
  evict now visitors h = kept_visitor now (visitors h)

-- What happens to the table, one after the other.
pub data Event : Type 0 where
  visits : ℕ → String → Event
  evicts : ℕ → Event

module _ {L : Type 0} (limiters : Limiters L) where
  -- The answers to the requests of one address, in their order.
  unfoldable pub decisions : String → List Event → Visitors L → List Bool
  unfolding visit evict
  decisions host [] visitors = []
  decisions host (visits now h ∷ events) visitors =
      let r = visit limiters now h visitors in
      let rest = decisions host events r.1 in if str_eq host h then r.0 ∷ rest else rest
  decisions host (evicts now ∷ events) visitors =
      decisions host events (evict limiters now visitors)

  -- One limiter that sees the requests of the address alone, and is never dropped.
  unfoldable pub decisions_alone : String → List Event → L → List Bool
  decisions_alone host [] limiter = []
  decisions_alone host (visits now h ∷ events) limiter =
      let r = limiters.allow now limiter in
      let counted = r.0 ∷ decisions_alone host events r.1 in
      let other = decisions_alone host events limiter in if str_eq host h then counted else other
  decisions_alone host (evicts now ∷ events) limiter = decisions_alone host events limiter
