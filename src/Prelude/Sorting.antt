-- ===== src/Prelude/Sorting.antt =====
-- `ORDER BY` and `sorted`: a stable sort by a test that the first stands no later than the second.
use mathlib.Core.Bool.{Bool, true, false}
use mathlib.Core.List.{List, [], ◌∷◌}
use mathlib.Core.Logic.{◌⊎◌, inl, inr}
use Prim.Native.Nat.{suc}
use mathlib.Core.Path.{◌≡◌, refl, ap, ◌∙◌}
use catchment.Prelude.Lists.{Has, length}
use catchment.Prelude.Tests.{Bool-cases, if◌then◌else◌}

module _ {A : Type 0} (not_later : A → A → Bool) where
  unfoldable pub insert_by : A → List A → List A
  insert_by a [] = a ∷ []
  insert_by a (b ∷ bs) = if not_later a b then a ∷ b ∷ bs else b ∷ insert_by a bs

  unfoldable pub order_by : List A → List A
  unfolding insert_by
  order_by [] = []
  order_by (a ∷ as') = insert_by a (order_by as')

  Has-insert_by : (a b : A) (xs : List A) → Has b (insert_by a xs) → Has b (a ∷ xs)
  unfolding insert_by
  Has-insert_by a b [] h = h
  Has-insert_by a b (c ∷ xs) h = elim (Bool-cases (not_later a c)) [
    | inl e ↦ rw e at h
    | inr e ↦ elim (rw e at h) [
      | inl q ↦ inr (inl q)
      | inr m ↦ elim (Has-insert_by a b xs m) [ inl q ↦ inl q | inr k ↦ inr (inr k) ]
    ]
  ]

  pub Has-order_by : (b : A) (xs : List A) → Has b (order_by xs) → Has b xs
  unfolding order_by
  Has-order_by b [] h = h
  Has-order_by b (a ∷ xs) h = elim (Has-insert_by a b (order_by xs) h) [
    | inl q ↦ inl q
    | inr m ↦ inr (Has-order_by b xs m)
  ]

  Has-insert_by_new : (a b : A) (xs : List A) → Has b (a ∷ xs) → Has b (insert_by a xs)
  unfolding insert_by
  Has-insert_by_new a b [] h = h
  Has-insert_by_new a b (c ∷ xs) h = elim (Bool-cases (not_later a c)) [
    | inl e ↦ rw e h
    | inr e ↦ rw e (elim h [
      | inl q ↦ inr (Has-insert_by_new a b xs (inl q))
      | inr k ↦ elim k [ inl q ↦ inl q | inr m ↦ inr (Has-insert_by_new a b xs (inr m)) ]
    ])
  ]

  -- A sort loses no element.
  pub Has-order_by_new : (b : A) (xs : List A) → Has b xs → Has b (order_by xs)
  unfolding order_by
  Has-order_by_new b (a ∷ xs) (inl q) = Has-insert_by_new a b (order_by xs) (inl q)
  Has-order_by_new b (a ∷ xs) (inr m) =
      Has-insert_by_new a b (order_by xs) (inr (Has-order_by_new b xs m))
  Has-order_by_new b [] h = h

  length-insert_by : (a : A) (xs : List A) → length (insert_by a xs) ≡ suc (length xs)
  unfolding insert_by
  length-insert_by a [] = refl
  length-insert_by a (c ∷ xs) = elim (Bool-cases (not_later a c)) [
    | inl e ↦ rw e refl
    | inr e ↦ rw e (ap suc (length-insert_by a xs))
  ]

  pub length-order_by : (xs : List A) → length (order_by xs) ≡ length xs
  unfolding order_by
  length-order_by [] = refl
  length-order_by (a ∷ xs) = length-insert_by a (order_by xs) ∙ ap suc (length-order_by xs)

  -- An element that goes before all others, and none before it, comes first.
  abbrev pub GoesFirst : A → A → Type 0
  GoesFirst x a = (a ≡ x) ⊎ ((not_later x a ≡ true) × (not_later a x ≡ false))

  insert_by-first :
      (x : A) (l : List A)
      → ((b : A) → Has b l → GoesFirst x b)
      → not_later x x ≡ true
      → insert_by x l ≡ x ∷ l
  unfolding insert_by
  insert_by-first x [] all self = refl
  insert_by-first x (b ∷ l) all self = elim (all b (inl refl)) [
    | inl e ↦ rw (e, self) refl
    | inr (before, _) ↦ rw before refl
  ]

  pub order_by-first :
      (x : A) (xs : List A)
      → Has x xs
      → ((b : A) → Has b xs → GoesFirst x b)
      → not_later x x ≡ true
      → (rest : List A) × (order_by xs ≡ x ∷ rest)
  unfolding order_by insert_by
  order_by-first x (a ∷ xs) (inl e) all self = (
    order_by xs,
    ap (λ b. insert_by b (order_by xs)) e
        ∙ insert_by-first x (order_by xs) (λ b m. all b (inr (Has-order_by b xs m))) self,
  )
  order_by-first x (a ∷ xs) (inr m) all self =
      let (rest, first) = order_by-first x xs m (λ b k. all b (inr k)) self in
      elim (all a (inl refl)) [
        | inl e ↦ (
          order_by xs,
          ap (λ b. insert_by b (order_by xs)) e
              ∙ insert_by-first x (order_by xs) (λ b k. all b (inr (Has-order_by b xs k))) self,
        )
        | inr (_, after) ↦ (insert_by a rest, rw (first, after) refl)
      ]
  order_by-first x [] h all self = absurd h
