-- ===== src/Admin/Upserts.antt =====
-- What recording a row does to the numbers that stand under each key.
use Prim.Native.Nat.{max}
use mathlib.Core.List.{Permᴰ}
use cubesync.Prelude.{
  ℕ, ◌+◌, ◌^◌, ◌≤◌, ◌<◌, ◌≡◌, refl, ap, ◌∙◌, true, List, [], ◌∷◌, if◌then◌else◌, eq_iff, ℤ, pos,
  negsuc, eqb_ℤ, arith, Bool-cases, inl, inr,
}
use cubesync.Admin.Tables.{MetricKey, RequestStatsHourly}
use cubesync.Admin.Records.{eqb_key, merged, upsert, are_rows}

module _ (f : RequestStatsHourly → ℕ) where
  -- The sum of a column under a key.
  abbrev pub sum_at : MetricKey → List RequestStatsHourly → ℕ
  sum_at k [] = 0
  sum_at k (row ∷ rows) = (if eqb_key k row.key then f row else 0) + sum_at k rows

  -- The largest value of a column under a key.
  abbrev pub max_at : MetricKey → List RequestStatsHourly → ℕ
  max_at k [] = 0
  max_at k (row ∷ rows) = max (if eqb_key k row.key then f row else 0) (max_at k rows)

unfoldable pub upsert_each :
    List RequestStatsHourly → List RequestStatsHourly → List RequestStatsHourly
upsert_each [] rows = rows
upsert_each (p ∷ ps) rows = upsert_each ps (upsert p rows)

eqb_ℤ_sound : (a b : ℤ) → eqb_ℤ a b ≡ true → a ≡ b
eqb_ℤ_sound (pos m) (pos n) e = ap pos (ground (arith, e))
eqb_ℤ_sound (pos m) (negsuc n) e = absurd (ground (arith, e))
eqb_ℤ_sound (negsuc m) (pos n) e = absurd (ground (arith, e))
eqb_ℤ_sound (negsuc m) (negsuc n) e = ap negsuc (ground (arith, e))

eqb_ℤ_refl : (a : ℤ) → eqb_ℤ a a ≡ true
eqb_ℤ_refl (pos m) = ground arith
eqb_ℤ_refl (negsuc m) = ground arith

pub eqb_key_sound : (a b : MetricKey) → eqb_key a b ≡ true → a ≡ b
eqb_key_sound a b e = ground (
  arith,
  e,
  eq_iff a.method b.method,
  eq_iff a.route b.route,
  eqb_ℤ_sound a.status_code b.status_code,
)

pub eqb_key_refl : (a : MetricKey) → eqb_key a a ≡ true
eqb_key_refl a =
    ground (arith, eq_iff a.method a.method, eq_iff a.route a.route, eqb_ℤ_refl a.status_code)

-- Two keys that are equal are under the same third.
eqb_key-same : (k a b : MetricKey) → eqb_key a b ≡ true → eqb_key k a ≡ eqb_key k b
eqb_key-same k a b e = ap (eqb_key k) (eqb_key_sound a b e)

module _ (f : RequestStatsHourly → ℕ) where
  -- A column that is added where rows are merged is added under every key.
  pub sum_at-upsert :
      ((row p : RequestStatsHourly) → f (merged row p) ≡ f row + f p)
      → (k : MetricKey) (p : RequestStatsHourly) (rows : List RequestStatsHourly)
      → sum_at f k (upsert p rows) ≡ sum_at f k rows + sum_at f k (p ∷ [])
  unfolding upsert
  sum_at-upsert adds k p [] = omega arith
  sum_at-upsert adds k p (row ∷ rows) = elim (Bool-cases (eqb_key p.key row.key)) [
    | inl e ↦
        let same = eqb_key-same k p.key row.key e in rw e (rw same (rw (adds row p) (ground arith)))
    | inr e ↦ rw e (omega (arith, sum_at-upsert adds k p rows))
  ]

  pub sum_at-upsert-le :
      ((row p : RequestStatsHourly) → f (merged row p) ≤ f row + f p)
      → (k : MetricKey) (p : RequestStatsHourly) (rows : List RequestStatsHourly)
      → sum_at f k (upsert p rows) ≤ sum_at f k rows + sum_at f k (p ∷ [])
  unfolding upsert
  sum_at-upsert-le adds k p [] = omega arith
  sum_at-upsert-le adds k p (row ∷ rows) = elim (Bool-cases (eqb_key p.key row.key)) [
    | inl e ↦
        let same = eqb_key-same k p.key row.key e in rw e (rw same (ground (arith, adds row p)))
    | inr e ↦ rw e (omega (arith, sum_at-upsert-le adds k p rows))
  ]

  pub max_at-upsert :
      ((row p : RequestStatsHourly) → f (merged row p) ≡ max (f row) (f p))
      → (k : MetricKey) (p : RequestStatsHourly) (rows : List RequestStatsHourly)
      → max_at f k (upsert p rows) ≡ max (max_at f k rows) (max_at f k (p ∷ []))
  unfolding upsert
  max_at-upsert adds k p [] = omega arith
  max_at-upsert adds k p (row ∷ rows) = elim (Bool-cases (eqb_key p.key row.key)) [
    | inl e ↦
        let same = eqb_key-same k p.key row.key e in rw e (rw same (ground (arith, adds row p)))
    | inr e ↦ rw e (omega (arith, max_at-upsert adds k p rows))
  ]

  pub sum_at-upsert_each :
      ((row p : RequestStatsHourly) → f (merged row p) ≡ f row + f p)
      → (k : MetricKey) (ps rows : List RequestStatsHourly)
      → sum_at f k (upsert_each ps rows) ≡ sum_at f k rows + sum_at f k ps
  unfolding upsert_each
  sum_at-upsert_each adds k [] rows = omega arith
  sum_at-upsert_each adds k (p ∷ ps) rows =
      omega (arith, sum_at-upsert_each adds k ps (upsert p rows), sum_at-upsert adds k p rows)

  pub sum_at-upsert_each-le :
      ((row p : RequestStatsHourly) → f (merged row p) ≤ f row + f p)
      → (k : MetricKey) (ps rows : List RequestStatsHourly)
      → sum_at f k (upsert_each ps rows) ≤ sum_at f k rows + sum_at f k ps
  unfolding upsert_each
  sum_at-upsert_each-le adds k [] rows = omega arith
  sum_at-upsert_each-le adds k (p ∷ ps) rows =
      omega (arith, sum_at-upsert_each-le adds k ps (upsert p rows), sum_at-upsert-le adds k p rows)

  pub max_at-upsert_each :
      ((row p : RequestStatsHourly) → f (merged row p) ≡ max (f row) (f p))
      → (k : MetricKey) (ps rows : List RequestStatsHourly)
      → max_at f k (upsert_each ps rows) ≡ max (max_at f k rows) (max_at f k ps)
  unfolding upsert_each
  max_at-upsert_each adds k [] rows = omega arith
  max_at-upsert_each adds k (p ∷ ps) rows =
      omega (arith, max_at-upsert_each adds k ps (upsert p rows), max_at-upsert adds k p rows)

  -- Neither depends on the order of the rows.
  pub sum_at-Permᴰ :
      (k : MetricKey) {xs ys : List RequestStatsHourly}
      → Permᴰ xs ys
      → sum_at f k xs ≡ sum_at f k ys
  sum_at-Permᴰ k Permᴰ.nil = refl
  sum_at-Permᴰ k (Permᴰ.cons e p) =
      let rest = sum_at-Permᴰ k p in let here = ap (λ r. sum_at f k (r ∷ [])) e in omega arith
  sum_at-Permᴰ k (Permᴰ.swap e d) =
      let left = ap (λ r. sum_at f k (r ∷ [])) e in
      let right = ap (λ r. sum_at f k (r ∷ [])) d in omega arith
  sum_at-Permᴰ k (Permᴰ.trans p q) = sum_at-Permᴰ k p ∙ sum_at-Permᴰ k q

  pub max_at-Permᴰ :
      (k : MetricKey) {xs ys : List RequestStatsHourly}
      → Permᴰ xs ys
      → max_at f k xs ≡ max_at f k ys
  max_at-Permᴰ k Permᴰ.nil = refl
  max_at-Permᴰ k (Permᴰ.cons e p) =
      let rest = max_at-Permᴰ k p in let here = ap (λ r. sum_at f k (r ∷ [])) e in omega arith
  max_at-Permᴰ k (Permᴰ.swap e d) =
      let left = ap (λ r. sum_at f k (r ∷ [])) e in
      let right = ap (λ r. sum_at f k (r ∷ [])) d in omega arith
  max_at-Permᴰ k (Permᴰ.trans p q) = max_at-Permᴰ k p ∙ max_at-Permᴰ k q

-- What all the columns of the rows under a key add up to.
abbrev pub load : RequestStatsHourly → ℕ
load row = row.request_count + row.total_duration_ms + row.max_duration_ms

pub load-merged : (row p : RequestStatsHourly) → load (merged row p) ≤ load row + load p
load-merged row p = omega arith

-- Rows with room under every key fit the columns.
pub are_rows-load :
    (rows : List RequestStatsHourly)
    → ((k : MetricKey) → sum_at load k rows < 2 ^ 63)
    → are_rows rows ≡ true
are_rows-load [] room = refl
are_rows-load (row ∷ rows) room =
    ground
      (arith, room row.key, eqb_key_refl row.key, are_rows-load rows (λ k. omega (arith, room k)))
