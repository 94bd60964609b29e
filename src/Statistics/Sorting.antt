-- ===== src/Statistics/Sorting.antt =====
-- Sorted times: their order, their number, and where the largest value stands.
use cubesync.Prelude.{
  ℕ, zero, suc, ◌+◌, ◌≤◌, ◌≡◌, refl, ap, ◌∙◌, ◌↔◌, Bool, true, false, Option, none, some, List, [],
  ◌∷◌, leb, ◌==◌, if◌then◌else◌, length, All, arith, some_inj, Bool-cases, ◌⊎◌, inl, inr,
}
use cubesync.Statistics.{insert_time, sort_times}

-- How often a value occurs.
abbrev pub count : ℕ → List ℕ → ℕ
count m [] = 0
count m (x ∷ xs) = (if x == m then 1 else 0) + count m xs

abbrev pub Sorted : List ℕ → Type 0
Sorted [] = Unit
Sorted (x ∷ xs) = All (λ y. x ≤ y) xs × Sorted xs

abbrev pub get_elem? : List ℕ → ℕ → Option ℕ
get_elem? [] i = none
get_elem? (x ∷ xs) zero = some x
get_elem? (x ∷ xs) (suc i) = get_elem? xs i

All-insert_time : (P : ℕ → Type 0) (t : ℕ) (xs : List ℕ) → P t → All P xs → All P (insert_time t xs)
unfolding insert_time
All-insert_time P t [] h a = (h, tt)
All-insert_time P t (x ∷ xs) h a =
    elim (leb t x) as (λ b. All P (if b then t ∷ x ∷ xs else x ∷ insert_time t xs)) [
      | true ↦ (h, a)
      | false ↦ (a.0, All-insert_time P t xs h a.1)
    ]

pub All-sort_times : (P : ℕ → Type 0) (xs : List ℕ) → All P xs → All P (sort_times xs)
unfolding sort_times
All-sort_times P [] a = tt
All-sort_times P (x ∷ xs) a = All-insert_time P x (sort_times xs) a.0 (All-sort_times P xs a.1)

All-le : (t x : ℕ) (xs : List ℕ) → t ≤ x → All (λ y. x ≤ y) xs → All (λ y. t ≤ y) xs
All-le t x [] h a = tt
All-le t x (y ∷ ys) h a = (omega (arith, h, a.0), All-le t x ys h a.1)

insert_time-Sorted : (t : ℕ) (xs : List ℕ) → Sorted xs → Sorted (insert_time t xs)
unfolding insert_time
insert_time-Sorted t [] s = (tt, tt)
insert_time-Sorted t (x ∷ xs) s = placed (leb t x) refl (insert_time-Sorted t xs s.1)
  where
    placed :
        (b : Bool)
        → leb t x ≡ b
        → Sorted (insert_time t xs)
        → Sorted (if b then t ∷ x ∷ xs else x ∷ insert_time t xs)
    placed true e ih = ((ground arith, All-le t x xs (ground arith) s.0), s)
    placed false e ih = (All-insert_time (λ y. x ≤ y) t xs (ground arith) s.0, ih)

count-insert_time : (m t : ℕ) (xs : List ℕ) → count m (insert_time t xs) ≡ count m (t ∷ xs)
unfolding insert_time
count-insert_time m t [] = refl
count-insert_time m t (x ∷ xs) = ground (arith, count-insert_time m t xs)

pub count-sort_times : (m : ℕ) (xs : List ℕ) → count m (sort_times xs) ≡ count m xs
unfolding sort_times
count-sort_times m [] = refl
count-sort_times m (x ∷ xs) =
    count-insert_time m x (sort_times xs)
    ∙ ap ((if x == m then 1 else 0) +◌) (count-sort_times m xs)

length-insert_time : (t : ℕ) (xs : List ℕ) → length (insert_time t xs) ≡ suc (length xs)
unfolding insert_time
length-insert_time t [] = refl
length-insert_time t (x ∷ xs) = ground (arith, length-insert_time t xs)

pub length-sort_times : (xs : List ℕ) → length (sort_times xs) ≡ length xs
unfolding sort_times
length-sort_times [] = refl
length-sort_times (x ∷ xs) = length-insert_time x (sort_times xs) ∙ ap suc (length-sort_times xs)

pub sort_times-Sorted : (xs : List ℕ) → Sorted (sort_times xs)
unfolding sort_times
sort_times-Sorted [] = tt
sort_times-Sorted (x ∷ xs) = insert_time-Sorted x (sort_times xs) (sort_times-Sorted xs)

count_le_length : (m : ℕ) (xs : List ℕ) → count m xs ≤ length xs
count_le_length m [] = omega arith
count_le_length m (x ∷ xs) = ground (arith, count_le_length m xs)

-- From the largest value on, there is no other.
count_all :
    (m : ℕ) (xs : List ℕ) → All (λ y. m ≤ y) xs → All (λ y. y ≤ m) xs → count m xs ≡ length xs
count_all m [] low high = refl
count_all m (x ∷ xs) low high = ground (arith, low.0, high.0, count_all m xs low.1 high.1)

-- The largest value stands at a place of a sorted list exactly if it fills all the places from
-- there on.
pub largest_at :
    (m : ℕ) (xs : List ℕ) (i x : ℕ)
    → Sorted xs
    → All (λ y. y ≤ m) xs
    → get_elem? xs i ≡ some x
    → (x ≡ m) ↔ (length xs ≤ i + count m xs)
largest_at m [] i x s high e = absurd (cc e)
largest_at m (y ∷ ys) zero x s high e =
    let same : y ≡ x = some_inj e in
    (
      λ h.
          let full = count_all m ys (All-le m y ys (omega (arith, same, h)) s.0) high.1 in
          ground (arith, same, h, full),
      λ h. ground (arith, same, h, high.0, count_le_length m ys),
    )
largest_at m (y ∷ ys) (suc i) x s high e =
    let later = largest_at m ys i x s.1 high.1 e in
    (λ h. ground (arith, later.0 h), λ h. later.1 (rest (Bool-cases (y == m)) h))
  where
    rest :
        ((y == m) ≡ true) ⊎ ((y == m) ≡ false)
        → suc (length ys) ≤ suc i + ((if y == m then 1 else 0) + count m ys)
        → length ys ≤ i + count m ys
    rest (inl e') h = omega (arith, count_all m ys (All-le m y ys (ground arith) s.0) high.1)
    rest (inr e') h = ground (arith, e', h)
