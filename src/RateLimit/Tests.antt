-- ===== src/RateLimit/Tests.antt =====
-- An example: a limiter that allows one request in six seconds, and an eviction between requests.
use cubesync.Prelude.{ℕ, suc, ◌+◌, ◌≡◌, ◌||◌, List, [], ◌∷◌, ltb, ◌==◌, arith}
use cubesync.RateLimit.{Limiters, Event, visits, evicts, no_visitors, decisions, decisions_alone}
use cubesync.RateLimit.Alone.{Refills, decisions_alone_lem}

-- 0 is a new limiter, `suc t` one that was used at t.
abbrev spaced : Limiters ℕ
spaced = record { new_limiter = 0; allow = λ now l. (l == 0 || ltb (l + 6000000000) now, suc now) }

spaced-Refills : Refills spaced
spaced-Refills l used now old = ground (arith, old)

abbrev events : List Event
events =
    visits 1000000000 "a"
    ∷ visits 2000000000 "b"
    ∷ visits 3000000000 "a"
    ∷ evicts 5000000000000
    ∷ visits 6000000000000 "a"
    ∷ []

decisions_alone_lem_example :
    decisions spaced "a" events no_visitors ≡ decisions_alone spaced "a" events 0
decisions_alone_lem_example =
    decisions_alone_lem spaced "a" events 0 spaced-Refills
      (omega arith, (omega arith, (omega arith, (omega arith, (omega arith, tt)))))
