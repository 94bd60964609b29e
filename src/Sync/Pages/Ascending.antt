-- ===== src/Sync/Pages/Ascending.antt =====
-- The order of the change log, and the rows after a cursor.
use cubesync.Prelude.{
  ℕ, suc, ◌≤◌, ◌<◌, ◌≡◌, refl, ap, ◌∙◌, true, List, [], ◌∷◌, ◌++◌, arith, ℤ, pos, ◌≤ℤ◌, ltb_ℤ,
  select,
}
use cubesync.Store.{ChangeLog}
use cubesync.Store.Queries.{after_cursor}

module _ {Raw : Type 0} where
  -- The ids ascend from above `m` to at most `n`.
  abbrev pub Within : ℕ → ℕ → List (ChangeLog Raw) → Type 0
  Within m n [] = m ≤ n
  Within m n (r ∷ rs) = (m < r.change_id) × Within r.change_id n rs

  -- The ids ascend from above the cursor.
  abbrev pub Ascending : ℤ → List (ChangeLog Raw) → Type 0
  Ascending c [] = Unit
  Ascending c (r ∷ rs) = (ltb_ℤ c (pos r.change_id) ≡ true) × Ascending (pos r.change_id) rs

  -- The id of the last row, or the cursor.
  abbrev pub last_cursor : ℤ → List (ChangeLog Raw) → ℤ
  last_cursor c [] = c
  last_cursor c (r ∷ rs) = last_cursor (pos r.change_id) rs

  abbrev pub newer : ℤ → List (ChangeLog Raw) → List (ChangeLog Raw)
  newer c = select (λ r. ltb_ℤ c (pos r.change_id))

  pub Within-le : (m n : ℕ) (rs : List (ChangeLog Raw)) → Within m n rs → m ≤ n
  Within-le m n [] h = h
  Within-le m n (r ∷ rs) h = omega (arith, Within-le r.change_id n rs h.1)

  pub Within-later : (m n k : ℕ) (rs : List (ChangeLog Raw)) → n ≤ k → Within m n rs → Within m k rs
  Within-later m n k [] le h = omega arith
  Within-later m n k (r ∷ rs) le h = (h.0, Within-later r.change_id n k rs le h.1)

  pub Within-append :
      (m n : ℕ) (rs : List (ChangeLog Raw)) (r : ChangeLog Raw)
      → Within m n rs
      → r.change_id ≡ suc n
      → Within m (suc n) (rs ++ r ∷ [])
  Within-append m n [] r h e = (omega arith, omega arith)
  Within-append m n (x ∷ rs) r h e = (h.0, Within-append x.change_id n rs r h.1 e)

  Ascending-mono : (c d : ℤ) (rs : List (ChangeLog Raw)) → c ≤ℤ d → Ascending d rs → Ascending c rs
  Ascending-mono c d [] le h = tt
  Ascending-mono c d (r ∷ rs) le h = (ground arith, h.1)

  newer-all : (c : ℤ) (rs : List (ChangeLog Raw)) → Ascending c rs → newer c rs ≡ rs
  newer-all c [] h = refl
  newer-all c (r ∷ rs) h = ground (arith, newer-all c rs, Ascending-mono c (pos r.change_id) rs)

  last_cursor-le : (c : ℤ) (rs : List (ChangeLog Raw)) → Ascending c rs → c ≤ℤ last_cursor c rs
  last_cursor-le c [] h = omega arith
  last_cursor-le c (r ∷ rs) h = ground (arith, last_cursor-le (pos r.change_id) rs h.1)

  Ascending-append :
      (c : ℤ) (xs ys : List (ChangeLog Raw))
      → Ascending c (xs ++ ys)
      → Ascending c xs × Ascending (last_cursor c xs) ys
  Ascending-append c [] ys h = (tt, h)
  Ascending-append c (x ∷ xs) ys h =
      let (left, right) = Ascending-append (pos x.change_id) xs ys h.1 in ((h.0, left), right)

  -- The rows newer than the last one shown are the rest.
  newer-append :
      (c : ℤ) (xs ys : List (ChangeLog Raw))
      → Ascending c (xs ++ ys)
      → newer (last_cursor c xs) (xs ++ ys) ≡ ys
  newer-append c [] ys h = newer-all c ys h
  newer-append c (x ∷ xs) ys h = ground (
    arith,
    newer-append (pos x.change_id) xs ys h.1,
    last_cursor-le (pos x.change_id) xs (Ascending-append (pos x.change_id) xs ys h.1).0,
  )

  after_cursor_from :
      (user : ℕ) (c : ℤ) (m n : ℕ) (log : List (ChangeLog Raw))
      → c ≤ℤ pos m
      → Within m n log
      → after_cursor user c log ≡ after_cursor user (pos m) log
  after_cursor_from user c m n [] le h = refl
  after_cursor_from user c m n (r ∷ log) le h = ground (
    arith,
    after_cursor_from user c r.change_id n log,
    after_cursor_from user (pos m) r.change_id n log,
  )

  after_cursor_above :
      (user m n : ℕ) (log : List (ChangeLog Raw))
      → Within m n log
      → Ascending (pos m) (after_cursor user (pos m) log)
  after_cursor_above user m n [] h = tt
  after_cursor_above user m n (r ∷ log) h = ground (
    arith,
    after_cursor_above user r.change_id n log h.1,
    after_cursor_from user (pos m) r.change_id n log,
    Ascending-mono (pos m) (pos r.change_id) (after_cursor user (pos r.change_id) log),
  )

  -- Skipping rows that are not the user's keeps the order.
  pub after_cursor-Ascending :
      (user : ℕ) (c : ℤ) (m n : ℕ) (log : List (ChangeLog Raw))
      → Within m n log
      → Ascending c (after_cursor user c log)
  after_cursor-Ascending user c m n [] h = tt
  after_cursor-Ascending user c m n (r ∷ log) h = ground (
    arith,
    after_cursor-Ascending user c r.change_id n log h.1,
    after_cursor_above user r.change_id n log h.1,
    after_cursor_from user c r.change_id n log,
  )

  -- A later cursor filters the rows of an earlier one.
  after_cursor-newer :
      (user : ℕ) (c d : ℤ) (log : List (ChangeLog Raw))
      → c ≤ℤ d
      → after_cursor user d log ≡ newer d (after_cursor user c log)
  after_cursor-newer user c d [] le = refl
  after_cursor-newer user c d (r ∷ log) le = ground (arith, after_cursor-newer user c d log le)

  -- From the cursor of a page the query continues where the page ended.
  pub after_cursor-resume :
      (user : ℕ) (c : ℤ) (m n : ℕ) (log xs ys : List (ChangeLog Raw))
      → Within m n log
      → after_cursor user c log ≡ xs ++ ys
      → after_cursor user (last_cursor c xs) log ≡ ys
  after_cursor-resume user c m n log xs ys h e =
      after_cursor-newer user c (last_cursor c xs) log
        (last_cursor-le c xs (Ascending-append c xs ys ordered).0)
      ∙ ap (newer (last_cursor c xs)) e
      ∙ newer-append c xs ys ordered
    where
      ordered : Ascending c (xs ++ ys)
      ordered = rw e at (after_cursor-Ascending user c m n log h)
