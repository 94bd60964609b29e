-- ===== src/Snapshot/Page.antt =====
-- What a page of a bootstrap keeps of its entities.
use cubesync.Prelude.{
  ℕ, suc, ◌+◌, ◌≤◌, ◌<◌, ◌≡◌, refl, sym, Bool, ◌&&◌, ◌||◌, Option, some, List, [], ◌∷◌, arith, ltb,
  leb, ◌==◌, length, take, Option-cases, Bool-cases, inl, inr, if_both, take_all_of-le,
}
use cubesync.Snapshot.{trim_loop, trim_by_bytes, entity_envelope_overhead}

-- A part of the entities is kept, from the first on; `cut` says whether some are left out.
pub record Prefix {E : Type 0} (es kept : List E) (cut : Bool) : Type 0 where
  pub count : ℕ
  pub fits : count ≤ length es
  pub is_front : kept ≡ take count es
  pub tells_cut : cut ≡ ltb count (length es)
  pub progress : 0 < length es → 0 < count

module _ {Raw E : Type 0} (size : Raw → ℕ) (marshal : E → Option Raw) (budget : ℕ) where
  trim_loop-within :
      (total keep i : ℕ) (es : List E)
      → keep ≤ i
      → let r = trim_loop size marshal budget total keep i es in (keep ≤ r) × (r ≤ i + length es)
  unfolding trim_loop
  trim_loop-within total keep i [] le = (omega arith, omega arith)
  trim_loop-within total keep i (e ∷ es) le = elim (Option-cases (marshal e)) [
    | inl fails ↦
        let (low, high) = trim_loop-within total keep (i + 1) es (omega arith) in
        rw fails (low, omega arith)
    | inr (raw, works) ↦
        let total' = total + (size raw + entity_envelope_overhead) in
        let (low, high) = trim_loop-within total' (i + 1) (i + 1) es (omega arith) in
        rw works (
          if_both (λ r. (keep ≤ r) × (r ≤ i + suc (length es))) (ltb budget total' && ltb 0 i)
            (omega arith, omega arith) (omega arith, omega arith))
  ]

  trim_loop-progress :
      (es : List E)
      → ((e : E) → (raw : Raw) × (marshal e ≡ some raw))
      → 0 < length es
      → 0 < trim_loop size marshal budget 0 0 0 es
  unfolding trim_loop
  trim_loop-progress [] works some_left = absurd (omega arith)
  trim_loop-progress (e ∷ es) works some_left =
      let (raw, printed) = works e in
      let total' = 0 + (size raw + entity_envelope_overhead) in
      let (low, high) = trim_loop-within total' 1 1 es (omega arith) in ground (arith, printed, low)

  -- The limit on bytes keeps the first entities of a page in their order and says whether it left
  -- any out; of a page that is not empty it keeps at least one, so that the loop of a bootstrap
  -- gets on. Every entity is marshaled without an error.
  pub trim_by_bytes-Prefix :
      (es : List E)
      → ((e : E) → (raw : Raw) × (marshal e ≡ some raw))
      → Prefix es (trim_by_bytes size marshal es budget).0 (trim_by_bytes size marshal es budget).1
  unfolding trim_by_bytes
  trim_by_bytes-Prefix es works = elim (Bool-cases (budget == 0 || leb (length es) 1)) [
    | inl whole ↦ rw whole (record {
      count = length es;
      fits = omega arith;
      is_front = sym (take_all_of-le es (length es) (omega arith));
      tells_cut = ground arith;
      progress = λ h. h;
    })
    | inr bounded ↦
        let (_, high) = trim_loop-within 0 0 0 es (omega arith) in
        rw bounded (record {
          count = trim_loop size marshal budget 0 0 0 es;
          fits = omega arith;
          is_front = refl;
          tells_cut = refl;
          progress = trim_loop-progress es works;
        })
  ]
