-- ===== src/History/Order.antt =====
-- Rows in the order of the pages, the most recent first, and where such an order is cut.
use mathlib.Core.Path.{subst}
use mathlib.Core.List.{Permᴰ}
use mathlib.Core.List.Permᴰ
use cubesync.Prelude.{
  ℕ, zero, suc, ◌≤◌, ◌≡◌, ◌≢◌, refl, sym, ap, Bool, true, false, Option, none, some, some_inj, List,
  [], ◌∷◌, if◌then◌else◌, length, map, select, take, drop, All, Bool-cases, inl, inr, ◌&&◌, ◌∙◌,
  arith,
}
use cubesync.History.{Key, earlier, insert_desc, order_desc}

earlier_not : (k a : Key) → earlier k a ≡ true → earlier a k ≡ false
earlier_not k a e = ground arith

earlier_self : (k : Key) → earlier k k ≡ false
earlier_self k = ground arith

earlier_total : (k a : Key) → a.id ≢ k.id → earlier k a ≡ false → earlier a k ≡ true
earlier_total k a differs e = ground (arith, differs)

pub earlier_trans : (j k a : Key) → earlier j k ≡ true → earlier k a ≡ true → earlier j a ≡ true
earlier_trans j k a e f = ground arith

pub take-take : {A : Type 0} (n m : ℕ) (xs : List A) → n ≤ m → take n (take m xs) ≡ take n xs
take-take zero m xs le = refl
take-take (suc n) zero xs le = absurd (omega (arith, le))
take-take (suc n) (suc m) [] le = refl
take-take (suc n) (suc m) (x ∷ xs) le = ap (x ∷◌) (take-take n m xs (omega (arith, le)))

-- The last of a list.
abbrev pub final : {A : Type 0} → List A → Option A
final [] = none
final (x ∷ []) = some x
final (x ∷ y ∷ ys) = final (y ∷ ys)

module _ {A : Type 0} (key : A → Key) where
  -- Every row is earlier than the rows before it.
  abbrev pub Descending : List A → Type 0
  Descending [] = Unit
  Descending (x ∷ xs) = All (λ y. earlier (key x) (key y) ≡ true) xs × Descending xs

  -- The ids of the rows are different.
  abbrev pub DistinctIds : List A → Type 0
  DistinctIds [] = Unit
  DistinctIds (x ∷ xs) = All (λ y. (key y).id ≢ (key x).id) xs × DistinctIds xs

  All-insert_desc :
      (P : A → Type 0) (r : A) (xs : List A) → P r → All P xs → All P (insert_desc key r xs)
  unfolding insert_desc
  All-insert_desc P r [] h a = (h, tt)
  All-insert_desc P r (x ∷ xs) h a =
      elim (earlier (key x) (key r))
        as (λ b. All P (if b then x ∷ insert_desc key r xs else r ∷ x ∷ xs)) [
          | true ↦ (a.0, All-insert_desc P r xs h a.1)
          | false ↦ (h, a)
        ]

  pub All-order_desc : (P : A → Type 0) (xs : List A) → All P xs → All P (order_desc key xs)
  unfolding order_desc
  All-order_desc P [] a = tt
  All-order_desc P (x ∷ xs) a =
      All-insert_desc P x (order_desc key xs) a.0 (All-order_desc P xs a.1)

  All-earlier :
      (r x : A) (xs : List A)
      → earlier (key r) (key x) ≡ true
      → All (λ y. earlier (key x) (key y) ≡ true) xs
      → All (λ y. earlier (key r) (key y) ≡ true) xs
  All-earlier r x [] h a = tt
  All-earlier r x (y ∷ ys) h a =
      (earlier_trans (key r) (key x) (key y) h a.0, All-earlier r x ys h a.1)

  insert_desc-Descending :
      (r : A) (xs : List A)
      → All (λ y. (key y).id ≢ (key r).id) xs
      → Descending xs
      → Descending (insert_desc key r xs)
  unfolding insert_desc
  insert_desc-Descending r [] d s = (tt, tt)
  insert_desc-Descending r (x ∷ xs) d s =
      placed (earlier (key x) (key r)) refl (insert_desc-Descending r xs d.1 s.1)
    where
      placed :
          (b : Bool)
          → earlier (key x) (key r) ≡ b
          → Descending (insert_desc key r xs)
          → Descending (if b then x ∷ insert_desc key r xs else r ∷ x ∷ xs)
      placed true e ih = (All-insert_desc (λ y. earlier (key x) (key y) ≡ true) r xs e s.0, ih)
      placed false e ih =
          let here : earlier (key r) (key x) ≡ true =
            earlier_total (key x) (key r) (λ same. d.0 (sym same)) e in
          ((here, All-earlier r x xs here s.0), s)

  pub order_desc-Descending : (xs : List A) → DistinctIds xs → Descending (order_desc key xs)
  unfolding order_desc
  order_desc-Descending [] d = tt
  order_desc-Descending (x ∷ xs) d =
      insert_desc-Descending x (order_desc key xs)
        (All-order_desc (λ y. (key y).id ≢ (key x).id) xs d.0) (order_desc-Descending xs d.1)

  Permᴰ-insert_desc : (r : A) (xs : List A) → Permᴰ (r ∷ xs) (insert_desc key r xs)
  unfolding insert_desc
  Permᴰ-insert_desc r [] = Permᴰ.refl (r ∷ [])
  Permᴰ-insert_desc r (x ∷ xs) =
      elim (earlier (key x) (key r))
        as (λ b. Permᴰ (r ∷ x ∷ xs) (if b then x ∷ insert_desc key r xs else r ∷ x ∷ xs)) [
          | true ↦ Permᴰ.trans (Permᴰ.swap refl refl) (Permᴰ.cons refl (Permᴰ-insert_desc r xs))
          | false ↦ Permᴰ.refl (r ∷ x ∷ xs)
        ]

  pub Permᴰ-order_desc : (xs : List A) → Permᴰ xs (order_desc key xs)
  unfolding order_desc
  Permᴰ-order_desc [] = Permᴰ.refl []
  Permᴰ-order_desc (x ∷ xs) =
      Permᴰ.trans (Permᴰ.cons refl (Permᴰ-order_desc xs)) (Permᴰ-insert_desc x (order_desc key xs))

  -- A row before which nothing stands comes first.
  insert_first :
      (r : A) (p : A → Bool) (xs : List A)
      → All (λ y. earlier (key y) (key r) ≡ false) xs
      → insert_desc key r (select p xs) ≡ r ∷ select p xs
  unfolding insert_desc
  insert_first r p [] a = refl
  insert_first r p (x ∷ xs) a = elim (Bool-cases (p x)) [
    | inl e ↦ rw (e, a.0) refl
    | inr e ↦ rw e (insert_first r p xs a.1)
  ]

  All-not_earlier :
      (r x : A) (xs : List A)
      → earlier (key x) (key r) ≡ false
      → All (λ y. earlier (key x) (key y) ≡ true) xs
      → All (λ y. earlier (key y) (key r) ≡ false) xs
  All-not_earlier r x [] h a = tt
  All-not_earlier r x (y ∷ ys) h a = (
    elim (Bool-cases (earlier (key y) (key r))) [
      | inl e ↦ absurd (cc (sym h ∙ earlier_trans (key x) (key y) (key r) a.0 e))
      | inr e ↦ e
    ],
    All-not_earlier r x ys h a.1,
  )

  module _ (p : A → Bool) where
    select-insert_desc_miss :
        (r : A) (xs : List A) → p r ≡ false → select p (insert_desc key r xs) ≡ select p xs
    unfolding insert_desc
    select-insert_desc_miss r [] h = rw h refl
    select-insert_desc_miss r (x ∷ xs) h = elim (Bool-cases (earlier (key x) (key r))) [
      | inl e ↦ rw e (ap (λ l. if p x then x ∷ l else l) (select-insert_desc_miss r xs h))
      | inr e ↦ rw (e, h) refl
    ]

    select-insert_desc :
        (r : A) (xs : List A)
        → p r ≡ true
        → Descending xs
        → select p (insert_desc key r xs) ≡ insert_desc key r (select p xs)
    unfolding insert_desc
    select-insert_desc r [] h s = rw h refl
    select-insert_desc r (x ∷ xs) h s = elim (Bool-cases (earlier (key x) (key r))) [
      | inl e ↦ elim (Bool-cases (p x)) [
        | inl shown ↦ rw (e, shown, e) (ap (x ∷◌) (select-insert_desc r xs h s.1))
        | inr hidden ↦ rw (e, hidden) (select-insert_desc r xs h s.1)
      ]
      | inr e ↦ rw (e, h) (sym (insert_first r p (x ∷ xs) (e, All-not_earlier r x xs e s.0)))
    ]

    -- Rows are left out before or after they are put in their order.
    pub select-order_desc :
        (xs : List A) → DistinctIds xs → select p (order_desc key xs) ≡ order_desc key (select p xs)
    unfolding order_desc
    select-order_desc [] d = refl
    select-order_desc (x ∷ xs) d = elim (Bool-cases (p x)) [
      | inl shown ↦ rw shown (
          select-insert_desc x (order_desc key xs) shown (order_desc-Descending xs d.1)
          ∙ ap (insert_desc key x) (select-order_desc xs d.1))
      | inr hidden ↦
          rw hidden
            (select-insert_desc_miss x (order_desc key xs) hidden ∙ select-order_desc xs d.1)
    ]

  select_all :
      (k : Key) (xs : List A)
      → All (λ y. earlier k (key y) ≡ true) xs
      → select (λ y. earlier k (key y)) xs ≡ xs
  select_all k [] a = refl
  select_all k (x ∷ xs) a = simp (a.0, select_all k xs a.1)

  -- The last row of a front part, before which the rest is.
  pub record Cut (limit : ℕ) (xs : List A) : Type 0 where
    pub last : A
    pub its_last : final (take limit xs) ≡ some last
    pub among : (j : Key) → All (λ y. earlier j (key y) ≡ true) xs → earlier j (key last) ≡ true
    pub rest : select (λ y. earlier (key last) (key y)) xs ≡ drop limit xs

  pub cut : (limit : ℕ) (xs : List A) → Descending xs → 1 ≤ limit → limit ≤ length xs → Cut limit xs
  cut zero xs s one le = absurd (omega (arith, one))
  cut (suc m) [] s one le = absurd (omega (arith, le))
  cut (suc zero) (x ∷ xs) s one le = record {
    last = x;
    its_last = refl;
    among = λ j a. a.0;
    rest = simp (earlier_self (key x)) (select_all (key x) xs s.0);
  }
  cut (suc (suc m)) (x ∷ []) s one le = absurd (omega (arith, le))
  cut (suc (suc m)) (x ∷ y ∷ ys) s one le =
      let later = cut (suc m) (y ∷ ys) s.1 (omega arith) (omega (arith, le)) in
      record {
        last = later.last;
        its_last = later.its_last;
        among = λ j a. later.among j a.1;
        rest = simp (earlier_not (key x) (key later.last) (later.among (key x) s.0)) later.rest;
      }

pub select-both :
    {A : Type 0} (p q r : A → Bool)
    → ((a : A) → r a ≡ (q a && p a))
    → (xs : List A) → select p (select q xs) ≡ select r xs
select-both p q r same [] = refl
select-both p q r same (x ∷ xs) = ground (arith, same x, select-both p q r same xs)

pub select-map :
    {A B : Type 0} (f : A → B) (p : B → Bool) (xs : List A)
    → select p (map f xs) ≡ map f (select (λ a. p (f a)) xs)
select-map f p [] = refl
select-map f p (x ∷ xs) = elim (Bool-cases (p (f x))) [
  | inl e ↦ rw e (ap (f x ∷◌) (select-map f p xs))
  | inr e ↦ rw e (select-map f p xs)
]

pub All-map :
    {A B : Type 0} (f : A → B) (P : B → Type 0) (xs : List A)
    → All (λ a. P (f a)) xs
    → All P (map f xs)
All-map f P [] a = tt
All-map f P (x ∷ xs) a = (a.0, All-map f P xs a.1)

pub All-chosen :
    {A : Type 0} (p q : A → Bool)
    → ((a : A) → p a ≡ true → q a ≡ true)
    → (xs : List A) → All (λ a. q a ≡ true) (select p xs)
All-chosen p q h [] = tt
All-chosen p q h (x ∷ xs) = elim (Bool-cases (p x)) [
  | inl e ↦ rw e (h x e, All-chosen p q h xs)
  | inr e ↦ rw e (All-chosen p q h xs)
]

pub All-take : {A : Type 0} (P : A → Type 0) (n : ℕ) (xs : List A) → All P xs → All P (take n xs)
All-take P zero xs a = tt
All-take P (suc n) [] a = tt
All-take P (suc n) (x ∷ xs) a = (a.0, All-take P n xs a.1)

pub All-final :
    {A : Type 0} (P : A → Type 0) (xs : List A) (x : A) → final xs ≡ some x → All P xs → P x
All-final P [] x e a = absurd (cc e)
All-final P (y ∷ []) x e a = subst P (some_inj e) a.0
All-final P (y ∷ z ∷ ys) x e a = All-final P (z ∷ ys) x e a.1

pub All-select :
    {A : Type 0} (P : A → Type 0) (p : A → Bool) (xs : List A) → All P xs → All P (select p xs)
All-select P p [] a = tt
All-select P p (x ∷ xs) a = elim (Bool-cases (p x)) [
  | inl e ↦ rw e (a.0, All-select P p xs a.1)
  | inr e ↦ rw e (All-select P p xs a.1)
]

pub DistinctIds-select :
    {A : Type 0} (key : A → Key) (p : A → Bool) (xs : List A)
    → DistinctIds key xs
    → DistinctIds key (select p xs)
DistinctIds-select key p [] d = tt
DistinctIds-select key p (x ∷ xs) d = elim (Bool-cases (p x)) [
  | inl e ↦
      rw e (All-select (λ y. (key y).id ≢ (key x).id) p xs d.0, DistinctIds-select key p xs d.1)
  | inr e ↦ rw e (DistinctIds-select key p xs d.1)
]
