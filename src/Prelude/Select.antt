-- ===== src/Prelude/Select.antt =====
-- Filters of a table before and after a statement that writes other rows.
use mathlib.Core.Path.{◌≡◌, refl, sym, ap}
use mathlib.Core.Option.{none, some}
use mathlib.Core.Bool.{Bool, true, false, not}
use mathlib.Core.List.{List, [], ◌∷◌, ◌++◌}
use native.Mathlib.Omega.{arith}
use mathlib.Core.Logic.{◌⊎◌, inl, inr}
use cubesync.Prelude.Tests.{if◌then◌else◌, is_some, some_inj, if_both, Bool-cases}
use cubesync.Prelude.Lists.{select, update_where, find, any, All}

module _ {ℓ} {A : Type ℓ} (p : A → Bool) where
  pub select-append_miss :
      (xs : List A) (x : A) → p x ≡ false → select p (xs ++ x ∷ []) ≡ select p xs
  select-append_miss [] x h = ground arith
  select-append_miss (y ∷ xs) x h = ground (arith, select-append_miss xs x h)

  -- `f` writes only rows that the filter drops, before and after.
  pub select-update_where :
      (q : A → Bool) (f : A → A) (xs : List A)
      → ((x : A) → q x ≡ true → (p x ≡ false) × (p (f x) ≡ false))
      → select p (update_where q f xs) ≡ select p xs
  select-update_where q f [] h = refl
  select-update_where q f (x ∷ xs) h = ground (arith, h x, select-update_where q f xs h)

  pub select-select_keep :
      (q : A → Bool) (xs : List A)
      → ((x : A) → p x ≡ true → q x ≡ true)
      → select p (select q xs) ≡ select p xs
  select-select_keep q [] h = refl
  select-select_keep q (x ∷ xs) h = ground (arith, h x, select-select_keep q xs h)

  -- A row is found under the same test after a statement that does not change the test.
  pub is_some-find-update_where :
      (q : A → Bool) (f : A → A) (xs : List A)
      → ((x : A) → p (f x) ≡ p x)
      → is_some (find p (update_where q f xs)) ≡ is_some (find p xs)
  is_some-find-update_where q f [] h = refl
  is_some-find-update_where q f (x ∷ xs) h = ground (arith, h x, is_some-find-update_where q f xs h)

  pub is_some-find-append :
      (xs ys : List A) → is_some (find p xs) ≡ true → is_some (find p (xs ++ ys)) ≡ true
  is_some-find-append [] ys h = cc
  is_some-find-append (x ∷ xs) ys h = ground (arith, is_some-find-append xs ys)

  -- What is found passes the test.
  pub find-holds : (xs : List A) (a : A) → find p xs ≡ some a → p a ≡ true
  find-holds [] a e = absurd (cc e)
  find-holds (x ∷ xs) a e = ground (arith, find-holds xs a)

  -- An update that does not change the test updates what is found.
  pub find-update_where :
      (q : A → Bool) (f : A → A) (xs : List A) (a : A)
      → ((x : A) → p (f x) ≡ p x)
      → find p xs ≡ some a
      → find p (update_where q f xs) ≡ some (if q a then f a else a)
  find-update_where q f [] a h e = absurd (cc e)
  find-update_where q f (x ∷ xs) a h e = elim (Bool-cases (p x)) [
    | inl hit ↦
        simp (same, hit) (ap (λ y. some (if q y then f y else y)) (some_inj (shown true hit e)))
    | inr miss ↦ simp (same, miss, find-update_where q f xs a h (shown false miss e))
  ]
    where
      same : p (if q x then f x else x) ≡ p x
      same = if_both (λ y. p y ≡ p x) (q x) (h x) refl

      shown :
          (b : Bool)
          → p x ≡ b
          → find p (x ∷ xs) ≡ some a
          → (if b then some x else find p xs) ≡ some a
      shown b s r = rw (sym s) r

  pub any-find : (xs : List A) → any p xs ≡ true → (a : A) × (find p xs ≡ some a)
  any-find [] e = absurd (cc e)
  any-find (x ∷ xs) e = here (p x) e (any-find xs)
    where
      here :
          (b : Bool)
          → (if b then true else any p xs) ≡ true
          → (any p xs ≡ true → (a : A) × (find p xs ≡ some a))
          → (a : A) × ((if b then some x else find p xs) ≡ some a)
      here true e' later = (x, refl)
      here false e' later = later e'

  pub find-append_miss :
      (xs : List A) (x : A) → any p xs ≡ false → p x ≡ true → find p (xs ++ x ∷ []) ≡ some x
  find-append_miss [] x e h = simp h
  find-append_miss (y ∷ xs) x e h = ground (arith, find-append_miss xs x)

  pub find-select-not : (xs : List A) → find p (select (λ x. not (p x)) xs) ≡ none
  find-select-not [] = refl
  find-select-not (x ∷ xs) = ground (arith, find-select-not xs)

  pub select-select-not : (xs : List A) → select p (select (λ x. not (p x)) xs) ≡ []
  select-select-not [] = refl
  select-select-not (x ∷ xs) = ground (arith, select-select-not xs)

module _ {ℓ κ} {A : Type ℓ} where
  pub All-find :
      (P : A → Type κ) (p : A → Bool) (xs : List A) (a : A) → All P xs → find p xs ≡ some a → P a
  All-find P p [] a h e = absurd (cc e)
  All-find P p (x ∷ xs) a h e = here (p x) (All-find P p xs a h.1) e
    where
      here :
          (b : Bool) → (find p xs ≡ some a → P a) → (if b then some x else find p xs) ≡ some a → P a
      here true later e' = rw (sym (some_inj e')) h.0
      here false later e' = later e'

  -- A predicate of every row after an update.
  pub All-update_each :
      (P : A → Type κ) (q : A → Bool) (f : A → A) (xs : List A)
      → ((x : A) → P (if q x then f x else x))
      → All P (update_where q f xs)
  All-update_each P q f [] h = tt
  All-update_each P q f (x ∷ xs) h = (h x, All-update_each P q f xs h)

  pub All-imp : {P Q : A → Type κ} (xs : List A) → ((x : A) → P x → Q x) → All P xs → All Q xs
  All-imp [] h a = tt
  All-imp (x ∷ xs) h a = (h x a.0, All-imp xs h a.1)

  pub All-update_where :
      {P : A → Type κ} (q : A → Bool) (f : A → A) (xs : List A)
      → ((x : A) → q x ≡ true → P x → P (f x))
      → All P xs
      → All P (update_where q f xs)
  All-update_where q f [] h a = tt
  All-update_where {P} q f (x ∷ xs) h a = (here (Bool-cases (q x)), All-update_where q f xs h a.1)
    where
      here : (q x ≡ true) ⊎ (q x ≡ false) → P (if q x then f x else x)
      here (inl e) = rw e (h x e a.0)
      here (inr e) = rw e a.0
