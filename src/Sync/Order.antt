-- ===== src/Sync/Order.antt =====
-- The order in which Sync applies the mutations of a request.
use mathlib.Core.List.{Permᴰ}
use mathlib.Core.List.Permᴰ
use cubesync.Prelude.{
  ℕ, ◌≤◌, ◌≡◌, refl, sym, ap, ◌∙◌, ◌⊎◌, inl, inr, String, Bool, true, false, ◌&&◌, List, [], ◌∷◌,
  ◌==◌, if◌then◌else◌, select, All, str_eq, eq_iff, arith, Bool-cases,
}
use cubesync.Sync.{Mutation}
use cubesync.Sync.Service.{entity_rank, not_after, insert_mutation, sort_mutations}

rank_session : (e : String) → e ≡ "session" → entity_rank e ≡ 0
unfolding entity_rank
rank_session e h = rw h refl

rank_solve : (e : String) → e ≡ "solve" → entity_rank e ≡ 1
unfolding entity_rank
rank_solve e h = rw h refl

-- What a rank says of the kind.
rank_inverse :
    (e : String)
    → ((entity_rank e ≡ 0) × (e ≡ "session"))
      ⊎ (((entity_rank e ≡ 1) × (e ≡ "solve")) ⊎ (entity_rank e ≡ 2))
unfolding entity_rank
rank_inverse e = elim (Bool-cases (str_eq e "session")) [
  | inl first ↦ inl (rw first refl, (eq_iff e "session").0 first)
  | inr other ↦ elim (Bool-cases (str_eq e "solve")) [
    | inl second ↦ inr (inl (rw (other, second) refl, (eq_iff e "solve").0 second))
    | inr third ↦ inr (inr (rw (other, third) refl))
  ]
]

module _ {Raw : Type 0} where
  -- The first may be applied before the second: nothing but a session comes before a session,
  -- nothing but sessions and solves before a solve, and of one kind the smaller id comes first.
  abbrev pub Precedes : Mutation Raw → Mutation Raw → Type 0
  Precedes m n =
      (n.entity ≡ "session" → m.entity ≡ "session")
      × (n.entity ≡ "solve" → (m.entity ≡ "session") ⊎ (m.entity ≡ "solve"))
      × (m.entity ≡ n.entity → m.entity_id ≤ n.entity_id)

  abbrev pub Ordered : List (Mutation Raw) → Type 0
  Ordered [] = Unit
  Ordered (m ∷ ms) = All (Precedes m) ms × Ordered ms

  -- A mutation of one entity.
  abbrev pub is_of : String → ℕ → Mutation Raw → Bool
  is_of entity id m = str_eq m.entity entity && m.entity_id == id

  abbrev Sorted : List (Mutation Raw) → Type 0
  Sorted [] = Unit
  Sorted (m ∷ ms) = All (λ n. not_after m n ≡ true) ms × Sorted ms

  not_after_total : (m n : Mutation Raw) → not_after m n ≡ false → not_after n m ≡ true
  unfolding not_after
  not_after_total m n h = ground (arith, h)

  not_after_trans :
      (m n k : Mutation Raw) → not_after m n ≡ true → not_after n k ≡ true → not_after m k ≡ true
  unfolding not_after
  not_after_trans m n k h j = ground (arith, h, j)

  not_after-rank :
      (m n : Mutation Raw) → not_after m n ≡ true → entity_rank m.entity ≤ entity_rank n.entity
  unfolding not_after
  not_after-rank m n h = ground (arith, h)

  not_after-id :
      (m n : Mutation Raw)
      → not_after m n ≡ true
      → entity_rank m.entity ≡ entity_rank n.entity
      → m.entity_id ≤ n.entity_id
  unfolding not_after
  not_after-id m n h e = ground (arith, h, e)

  not_after-Precedes : (m n : Mutation Raw) → not_after m n ≡ true → Precedes m n
  not_after-Precedes m n h =
      let below = not_after-rank m n h in
      (
        λ e. elim (rank_inverse m.entity) [
          | inl first ↦ first.1
          | inr (inl second) ↦ absurd (omega (arith, below, second.0, rank_session n.entity e))
          | inr (inr third) ↦ absurd (omega (arith, below, third, rank_session n.entity e))
        ],
        λ e. elim (rank_inverse m.entity) [
          | inl first ↦ inl first.1
          | inr (inl second) ↦ inr second.1
          | inr (inr third) ↦ absurd (omega (arith, below, third, rank_solve n.entity e))
        ],
        λ e. not_after-id m n h (ap entity_rank e),
      )

  All-Precedes :
      (m : Mutation Raw) (ms : List (Mutation Raw))
      → All (λ n. not_after m n ≡ true) ms
      → All (Precedes m) ms
  All-Precedes m [] a = tt
  All-Precedes m (n ∷ ms) a = (not_after-Precedes m n a.0, All-Precedes m ms a.1)

  Ordered-Sorted : (ms : List (Mutation Raw)) → Sorted ms → Ordered ms
  Ordered-Sorted [] s = tt
  Ordered-Sorted (m ∷ ms) s = (All-Precedes m ms s.0, Ordered-Sorted ms s.1)

  All-after :
      (m n : Mutation Raw) (ms : List (Mutation Raw))
      → not_after m n ≡ true
      → All (λ k. not_after n k ≡ true) ms
      → All (λ k. not_after m k ≡ true) ms
  All-after m n [] h a = tt
  All-after m n (k ∷ ms) h a = (not_after_trans m n k h a.0, All-after m n ms h a.1)

  All-insert :
      (P : Mutation Raw → Type 0) (m : Mutation Raw) (ms : List (Mutation Raw))
      → P m
      → All P ms
      → All P (insert_mutation m ms)
  unfolding insert_mutation
  All-insert P m [] h a = (h, tt)
  All-insert P m (n ∷ ms) h a = elim (Bool-cases (not_after m n)) [
    | inl first ↦ rw first (h, a)
    | inr later ↦ rw later (a.0, All-insert P m ms h a.1)
  ]

  Sorted-insert :
      (m : Mutation Raw) (ms : List (Mutation Raw)) → Sorted ms → Sorted (insert_mutation m ms)
  unfolding insert_mutation
  Sorted-insert m [] s = (tt, tt)
  Sorted-insert m (n ∷ ms) s = elim (Bool-cases (not_after m n)) [
    | inl first ↦ rw first ((first, All-after m n ms first s.0), s)
    | inr later ↦ rw later (
      All-insert (λ k. not_after n k ≡ true) m ms (not_after_total m n later) s.0,
      Sorted-insert m ms s.1,
    )
  ]

  sort_mutations-Sorted : (ms : List (Mutation Raw)) → Sorted (sort_mutations ms)
  unfolding sort_mutations
  sort_mutations-Sorted [] = tt
  sort_mutations-Sorted (m ∷ ms) = Sorted-insert m (sort_mutations ms) (sort_mutations-Sorted ms)

  Permᴰ-insert :
      (m : Mutation Raw) (ms : List (Mutation Raw)) → Permᴰ (m ∷ ms) (insert_mutation m ms)
  unfolding insert_mutation
  Permᴰ-insert m [] = Permᴰ.refl (m ∷ [])
  Permᴰ-insert m (n ∷ ms) = elim (Bool-cases (not_after m n)) [
    | inl first ↦ rw first (Permᴰ.refl (m ∷ n ∷ ms))
    | inr later ↦
        rw later (Permᴰ.trans (Permᴰ.swap refl refl) (Permᴰ.cons refl (Permᴰ-insert m ms)))
  ]

  sort_mutations-Permᴰ : (ms : List (Mutation Raw)) → Permᴰ ms (sort_mutations ms)
  unfolding sort_mutations
  sort_mutations-Permᴰ [] = Permᴰ.refl []
  sort_mutations-Permᴰ (m ∷ ms) =
      Permᴰ.trans (Permᴰ.cons refl (sort_mutations-Permᴰ ms)) (Permᴰ-insert m (sort_mutations ms))

  is_of-same :
      (entity : String) (id : ℕ) (m : Mutation Raw)
      → is_of entity id m ≡ true
      → (m.entity ≡ entity) × (m.entity_id ≡ id)
  is_of-same entity id m h =
      let parts : (str_eq m.entity entity ≡ true) × (m.entity_id ≡ id) = ground (arith, h) in
      ((eq_iff m.entity entity).0 parts.0, parts.1)

  not_after-same :
      (m n : Mutation Raw) → m.entity ≡ n.entity → m.entity_id ≡ n.entity_id → not_after m n ≡ true
  unfolding not_after
  not_after-same m n e i = ground (arith, ap entity_rank e, i)

  -- Two mutations of one entity stay in their order.
  is_of-stays :
      (entity : String) (id : ℕ) (m n : Mutation Raw)
      → not_after m n ≡ false
      → is_of entity id m ≡ true
      → is_of entity id n ≡ false
  is_of-stays entity id m n later h = elim (Bool-cases (is_of entity id n)) [
    | inl e ↦
        let a = is_of-same entity id m h in
        let b = is_of-same entity id n e in
        absurd (cc (sym later ∙ not_after-same m n (a.0 ∙ sym b.0) (a.1 ∙ sym b.1)))
    | inr e ↦ e
  ]

  select-insert :
      (entity : String) (id : ℕ) (m : Mutation Raw) (ms : List (Mutation Raw))
      → select (is_of entity id) (insert_mutation m ms) ≡ select (is_of entity id) (m ∷ ms)
  unfolding insert_mutation
  select-insert entity id m [] = refl
  select-insert entity id m (n ∷ ms) =
      let rest = select-insert entity id m ms in
      elim (Bool-cases (not_after m n)) [
        | inl first ↦ rw first refl
        | inr later ↦ elim (Bool-cases (is_of entity id m)) [
          | inl mine ↦ rw (later, is_of-stays entity id m n later mine) rest
          | inr other ↦
              rw (later, other)
                (ap (λ l. if is_of entity id n then n ∷ l else l) (rw other at rest))
        ]
      ]

  select-sort :
      (entity : String) (id : ℕ) (ms : List (Mutation Raw))
      → select (is_of entity id) (sort_mutations ms) ≡ select (is_of entity id) ms
  unfolding sort_mutations
  select-sort entity id [] = refl
  select-sort entity id (m ∷ ms) =
      select-insert entity id m (sort_mutations ms)
      ∙ ap (λ rest. if is_of entity id m then m ∷ rest else rest) (select-sort entity id ms)

  -- The mutations are applied with sessions before solves and solves before the rest, and of one
  -- kind by the id of the entity; each mutation of the request is applied as often as it stands
  -- there, and the mutations of one entity in the order of the request.
  pub sort_mutations-Ordered :
      (ms : List (Mutation Raw))
      → Ordered (sort_mutations ms)
        × Permᴰ ms (sort_mutations ms)
        × ((entity : String) (id : ℕ)
            → select (is_of entity id) (sort_mutations ms) ≡ select (is_of entity id) ms)
  sort_mutations-Ordered ms = (
    Ordered-Sorted (sort_mutations ms) (sort_mutations-Sorted ms),
    sort_mutations-Permᴰ ms,
    λ entity id. select-sort entity id ms,
  )
