-- ===== src/Sync/Pages/Exact.antt =====
-- What a page shows of the rows after the cursor (make_page: the tail of Sync and of pullOnly).
use cubesync.Prelude.{
  ℕ, zero, suc, ◌+◌, ◌≤◌, ◌<◌, ◌≡◌, refl, ap, ◌∙◌, Bool, true, false, not, ◌&&◌, List, [], ◌∷◌,
  ◌++◌, map, arith, ltb, if◌then◌else◌, ℤ, pos, length, take, drop, take-append-drop, length-take,
  length-drop, Bool-cases, inl, inr, take_all_of-le,
}
use native.Mathlib.Numerals.{add-one}
use mathlib.Core.List.{append-nil, append_assoc}
use cubesync.Store.{ChangeLog}
use cubesync.Sync.Models.{Codec}
use cubesync.Sync.Pages.{
  Page, change_of, build_changes, keep_changes, apply_byte_limit, make_page,
  change_envelope_overhead,
}
use cubesync.Sync.Pages.Ascending.{last_cursor}

abbrev pub is_nil {ℓ} : {A : Type ℓ} → List A → Bool
is_nil [] = true
is_nil (x ∷ xs) = false

is_nil-append {ℓ} : {A : Type ℓ} (xs ys : List A) → is_nil (xs ++ ys) ≡ is_nil xs && is_nil ys
is_nil-append [] ys = refl
is_nil-append (x ∷ xs) ys = refl

pub nil_of_is_nil {ℓ} : {A : Type ℓ} (xs : List A) → is_nil xs ≡ true → xs ≡ []
nil_of_is_nil [] h = refl
nil_of_is_nil (x ∷ xs) h = cc

not_nil_of_length {ℓ} : {A : Type ℓ} (xs : List A) → 0 < length xs → not (is_nil xs) ≡ true
not_nil_of_length [] h = absurd (omega arith)
not_nil_of_length (x ∷ xs) h = refl

take-take-suc {ℓ} : {A : Type ℓ} (n : ℕ) (xs : List A) → take n (take (suc n) xs) ≡ take n xs
take-take-suc zero xs = refl
take-take-suc (suc n) [] = refl
take-take-suc (suc n) (x ∷ xs) = ap (◌∷◌ x) (take-take-suc n xs)

-- The page shows a prefix of the rows, and is empty only where there is no row.
pub record Shows {Raw : Type 0} (codec : Codec Raw) (proto : ℕ) (cursor : ℤ)
    (rows : List (ChangeLog Raw)) (page : Page Raw) : Type 0 where
  pub shown : List (ChangeLog Raw)
  pub rest : List (ChangeLog Raw)
  pub split : rows ≡ shown ++ rest
  pub in_order : page.changes ≡ map (change_of codec proto) shown
  pub resumes : page.next_cursor ≡ last_cursor cursor shown
  pub tells_more : page.has_more ≡ not (is_nil rest)
  pub progress : is_nil shown ≡ true → is_nil rows ≡ true

module _ {Raw : Type 0} (codec : Codec Raw) (proto : ℕ) where
  build_changes-eq :
      (rows : List (ChangeLog Raw)) (base : ℤ)
      → build_changes codec proto rows base
        ≡ (map (change_of codec proto) rows, last_cursor base rows)
  unfolding build_changes
  build_changes-eq [] base = refl
  build_changes-eq (r ∷ rows) base = rw (build_changes-eq rows (pos r.change_id))

  -- The loop cuts a suffix; the first change stays whatever its size.
  keep_changes-Shows :
      (budget total : ℕ) (first : Bool) (rows : List (ChangeLog Raw)) (next : ℤ)
      → (shown rest : List (ChangeLog Raw)) × (rows ≡ shown ++ rest)
        × (let page =
              keep_changes codec budget total first (map (change_of codec proto) rows) rows next in
            (page.changes ≡ map (change_of codec proto) shown)
            × (page.next_cursor ≡ last_cursor next shown)
            × (page.has_more ≡ not (is_nil rest)))
        × (first ≡ true → is_nil shown ≡ true → is_nil rows ≡ true)
  unfolding keep_changes
  keep_changes-Shows budget total first [] next = ([], [], refl, (refl, refl, refl), λ _ _. refl)
  keep_changes-Shows budget total first (r ∷ rows) next =
      elim (Bool-cases (ltb budget total' && not first)) [
        | inl stop ↦ ([], r ∷ rows, refl, rw stop (refl, refl, refl), λ f _. absurd (ground arith))
        | inr go ↦
            let (shown, rest, split, laws, _) =
              keep_changes-Shows budget total' false rows (pos r.change_id) in
            (
              r ∷ shown,
              rest,
              ap (◌∷◌ r) split,
              rw go (ap (◌∷◌ (change_of codec proto r)) laws.0, laws.1, laws.2),
              λ _ none_shown. none_shown,
            )
      ]
    where
      total' : ℕ
      total' = total + (codec.size (change_of codec proto r).payload + change_envelope_overhead)

  -- The limit on bytes, after `later` rows that the limit on their number has cut.
  apply_byte_limit-Shows :
      (budget : ℕ) (rows later : List (ChangeLog Raw)) (cursor : ℤ)
      → (is_nil rows ≡ true → is_nil later ≡ true)
      → Shows codec proto cursor (rows ++ later) (
          apply_byte_limit codec budget
            (map (change_of codec proto) rows)
            rows
            cursor
            (not (is_nil later)))
  unfolding apply_byte_limit
  apply_byte_limit-Shows budget rows later cursor some_shown =
      let (shown, rest, split, (changes, next, more), progress) =
        keep_changes-Shows budget 0 true rows cursor in
      elim (Bool-cases (not (is_nil rest))) [
        | inl cut ↦
            rw (more, cut)
              (record {
                shown = shown;
                rest = rest ++ later;
                split = ap (λ l. l ++ later) split ∙ append_assoc shown rest later;
                in_order = changes;
                resumes = next;
                tells_more = ground (arith, is_nil-append rest later, more, cut);
                progress = λ n. ground (
                  arith,
                  is_nil-append rows later,
                  some_shown (progress refl n),
                  progress refl n,
                );
              })
        | inr whole ↦
            let none_left : rest ≡ [] = nil_of_is_nil rest (ground arith) in
            let all_shown : rows ≡ shown =
              split ∙ ap (λ l. shown ++ l) none_left ∙ append-nil shown in
            rw (more, whole)
              (record {
                shown = shown;
                rest = later;
                split = ap (λ l. l ++ later) all_shown;
                in_order = ap (map (change_of codec proto)) all_shown;
                resumes = next;
                tells_more = refl;
                progress = λ n. ground (
                  arith,
                  is_nil-append rows later,
                  some_shown (progress refl n),
                  progress refl n,
                );
              })
      ]

  -- Either limit: the page without the limit on bytes is built from the same rows.
  limited-Shows :
      (budget : ℕ) (rows later : List (ChangeLog Raw)) (cursor : ℤ)
      → (is_nil rows ≡ true → is_nil later ≡ true)
      → Shows codec proto cursor (rows ++ later) (
          let (changes, next) = build_changes codec proto rows cursor in
          if ltb 0 budget
          then apply_byte_limit codec budget changes rows cursor (not (is_nil later))
          else record { changes = changes; has_more = not (is_nil later); next_cursor = next })
  limited-Shows budget rows later cursor some_shown =
      rw (build_changes-eq rows cursor) (elim (Bool-cases (ltb 0 budget)) [
        | inl limit ↦ rw limit (apply_byte_limit-Shows budget rows later cursor some_shown)
        | inr free ↦ rw free (record {
          shown = rows;
          rest = later;
          split = refl;
          in_order = refl;
          resumes = refl;
          tells_more = refl;
          progress = λ n. ground (arith, is_nil-append rows later, some_shown n);
        })
      ])

  -- The page that is made from the rows of a read of `limit + 1`, of all the rows that are newer
  -- than the cursor: it shows a prefix of the rows in their order, its cursor is the
  -- id of the last row shown, `has_more` says whether rows are left, and if there are rows then
  -- it shows at least one, whatever the budget of bytes is. The limit is not 0.
  pub make_page-Shows :
      (budget limit : ℕ) (cursor : ℤ) (rows : List (ChangeLog Raw))
      → 0 < limit
      → Shows codec proto cursor rows
          (make_page codec budget proto limit cursor (take (limit + 1) rows))
  unfolding make_page
  make_page-Shows budget limit cursor rows positive =
      rw add-one (elim (Bool-cases (ltb limit (length (take (suc limit) rows)))) [
        | inl more ↦
            rw (more, take-take-suc limit rows)
              (rw (take-append-drop limit rows, more_left more) at
                (limited-Shows budget (take limit rows) (drop limit rows) cursor (shows_some more)))
        | inr all ↦
            rw (all, take_all_of-le rows (suc limit) (short all))
              (rw (append-nil rows) at (limited-Shows budget rows [] cursor (λ _. refl)))
      ])
    where
      more_left :
          ltb limit (length (take (suc limit) rows)) ≡ true → not (is_nil (drop limit rows)) ≡ true
      more_left more =
          not_nil_of_length (drop limit rows)
            (ground (arith, length-take (suc limit) rows, length-drop limit rows))

      shows_some :
          ltb limit (length (take (suc limit) rows)) ≡ true
          → is_nil (take limit rows) ≡ true
          → is_nil (drop limit rows) ≡ true
      shows_some more n = absurd (
          ground (
            arith,
            ap length (nil_of_is_nil (take limit rows) n),
            length-take limit rows,
            length-take (suc limit) rows,
          ))

      short : ltb limit (length (take (suc limit) rows)) ≡ false → length rows ≤ suc limit
      short all = ground (arith, length-take (suc limit) rows)
