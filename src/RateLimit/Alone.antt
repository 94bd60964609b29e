-- ===== src/RateLimit/Alone.antt =====
-- The table limits each address as if it were the only one.
use cubesync.Prelude.{
  ℕ, ◌+◌, ◌≤◌, ◌<◌, ◌≡◌, refl, sym, ap, ◌∙◌, String, Bool, true, false, Option, none, some, List,
  [], ◌∷◌, if◌then◌else◌, str_eq, eq_iff, ltb, ltb→lt, arith, Bool-cases, inl, inr,
}
use cubesync.RateLimit.{
  Limiters, Visitor, Visitors, no_visitors, hour, limiter_of, visit, kept_visitor, evict, Event,
  visits, evicts, decisions, decisions_alone,
}

-- The clock does not go back.
abbrev pub InOrder : ℕ → List Event → Type 0
InOrder from [] = Unit
InOrder from (visits now h ∷ events) = (from ≤ now) × InOrder now events
InOrder from (evicts now ∷ events) = (from ≤ now) × InOrder now events

module _ {L : Type 0} (limiters : Limiters L) where
  -- What the rates say: a limiter that was used an hour ago answers like a new one.
  abbrev pub Refills : Type 0
  Refills =
      (l : L) (used now : ℕ)
      → used + hour < now
      → limiters.allow now (limiters.allow used l).1 ≡ limiters.allow now limiters.new_limiter

  -- A limiter that was last used at a time.
  record UsedAt (used : ℕ) (l : L) : Type 0 where
    earlier : L
    after : l ≡ (limiters.allow used earlier).1

  -- The limiter that sees the address alone, against the table's.
  data Agrees (clock : ℕ) (alone : L) : Option (Visitor L) → Type 0 where
    unseen : alone ≡ limiters.new_limiter → Agrees clock alone none
    dropped : (used : ℕ) → used + hour < clock → UsedAt used alone → Agrees clock alone none
    seen :
        (v : Visitor L) → v.limiter ≡ alone → UsedAt v.last_seen alone → Agrees clock alone (some v)

  Agrees-later :
      {clock : ℕ} {alone : L} {o : Option (Visitor L)} (now : ℕ)
      → clock ≤ now
      → Agrees clock alone o
      → Agrees now alone o
  Agrees-later now le (unseen e) = unseen e
  Agrees-later now le (dropped used old u) = dropped used (omega (arith, old, le)) u
  Agrees-later now le (seen v e u) = seen v e u

  Agrees-evict :
      {clock : ℕ} {alone : L} {o : Option (Visitor L)}
      → Agrees clock alone o
      → Agrees clock alone (kept_visitor limiters clock o)
  Agrees-evict (unseen e) = unseen e
  Agrees-evict (dropped used old u) = dropped used old u
  Agrees-evict {clock} {alone} (seen v e u) = by_age (ltb (v.last_seen + hour) clock) refl
    where
      by_age :
          (b : Bool)
          → ltb (v.last_seen + hour) clock ≡ b
          → Agrees clock alone (if b then none else some v)
      by_age true old = dropped v.last_seen (ltb→lt (v.last_seen + hour) clock old) u
      by_age false young = seen v e u

  Agrees-allow :
      {clock : ℕ} {alone : L} {o : Option (Visitor L)}
      → Refills
      → Agrees clock alone o
      → limiters.allow clock (limiter_of limiters o) ≡ limiters.allow clock alone
  Agrees-allow {clock} refills (unseen e) = ap (limiters.allow clock) (sym e)
  Agrees-allow {clock} refills (dropped used old u) =
      sym (refills u.earlier used clock old) ∙ ap (limiters.allow clock) (sym u.after)
  Agrees-allow {clock} refills (seen v e u) = ap (limiters.allow clock) e

  -- After the address's own request, and after another's.
  Agrees-visit :
      (host : String) (now : ℕ) (visitors : Visitors L) (alone : L)
      → Refills
      → Agrees now alone (visitors host)
      → (other : String) → str_eq host other ≡ true
      → ((visit limiters now other visitors).0 ≡ (limiters.allow now alone).0)
        × Agrees now (limiters.allow now alone).1 ((visit limiters now other visitors).1 host)
  unfolding visit
  Agrees-visit host now visitors alone refills h other same =
      let one : limiters.allow now (limiter_of limiters (visitors other))
          ≡ limiters.allow now alone =
        ap (λ k. limiters.allow now (limiter_of limiters (visitors k)))
          (sym ((eq_iff host other).0 same))
        ∙ Agrees-allow refills h in
      (
        ap (λ r. r.0) one,
        rw same (
            seen
              (record {
                limiter = (limiters.allow now (limiter_of limiters (visitors other))).1;
                last_seen = now;
              })
              (ap (λ r. r.1) one) (record { earlier = alone; after = refl })),
      )

  Agrees-other :
      (host : String) (now : ℕ) (visitors : Visitors L) (alone : L)
      → Agrees now alone (visitors host)
      → (other : String) → str_eq host other ≡ false
      → Agrees now alone ((visit limiters now other visitors).1 host)
  unfolding visit
  Agrees-other host now visitors alone h other differs = rw differs h

  decisions-from :
      (host : String) (events : List Event) (visitors : Visitors L) (alone : L) (clock : ℕ)
      → Refills
      → InOrder clock events
      → Agrees clock alone (visitors host)
      → decisions limiters host events visitors ≡ decisions_alone limiters host events alone
  unfolding decisions decisions_alone visit evict
  decisions-from host [] visitors alone clock refills order h = refl
  decisions-from host (evicts now ∷ events) visitors alone clock refills order h =
      decisions-from host events (evict limiters now visitors) alone now refills order.1
        (Agrees-evict (Agrees-later now order.0 h))
  decisions-from host (visits now other ∷ events) visitors alone clock refills order h =
      let kept = Agrees-later now order.0 h in
      elim (Bool-cases (str_eq host other)) [
        | inl same ↦
            let (answer, agree) = Agrees-visit host now visitors alone refills kept other same in
            rw same (
              ap (λ b. b ∷ decisions limiters host events (visit limiters now other visitors).1)
                answer
              ∙ ap (λ bs. (limiters.allow now alone).0 ∷ bs)
                  (decisions-from host events (visit limiters now other visitors).1
                    (limiters.allow now alone).1 now refills order.1 agree))
        | inr differs ↦ rw differs (
            decisions-from host events (visit limiters now other visitors).1 alone now refills
              order.1 (Agrees-other host now visitors alone kept other differs))
      ]

  -- In any sequence of requests and evictions, in the order of the clock, the requests of an address
  -- are answered as by one limiter that sees them alone and is never evicted: neither the requests
  -- of other addresses nor the evictions matter. A limiter that was used an hour ago answers like a
  -- new one.
  pub decisions_alone_lem :
      (host : String) (events : List Event) (from : ℕ)
      → Refills
      → InOrder from events
      → decisions limiters host events no_visitors
        ≡ decisions_alone limiters host events limiters.new_limiter
  decisions_alone_lem host events from refills order =
      decisions-from host events no_visitors limiters.new_limiter from refills order (unseen refl)
