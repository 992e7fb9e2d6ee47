-- ===== src/Prelude/Front.antt =====
-- The rows that a sort puts first: those of one kind, where each stands before all of the others.
use catchment.Prelude.{
  All, All-Has, Bool, Bool-cases, Has, Has-append_left, Has-append_right, Has-order_by, List, [],
  ap, arith, false, inl, inr, insert_by, length, nat_eq, order_by, pair_eq, refl, select, subst,
  suc, sym, take, text_eq, true, zero, ℕ, ◌++◌, ◌∙◌, ◌∷◌, ◌≡◌, ◌≤◌,
}

module _ {A : Type 0} (not_later : A → A → Bool) (p : A → Bool) where
  -- Every one of the first kind goes strictly before every other one.
  abbrev pub Before : A → A → Type 0
  Before a b = (not_later a b ≡ true) × (not_later b a ≡ false)

  insert_by-in_front :
      (a : A) (front back : List A)
      → p a ≡ true
      → ((b : A) → Has b back → Before a b)
      → All (λ x. p x ≡ true) front
      → (front' : List A) × (insert_by not_later a (front ++ back) ≡ front' ++ back)
        × All (λ x. p x ≡ true) front'
        × (length front' ≡ suc (length front))
  unfolding insert_by
  insert_by-in_front a [] [] is before h = (a ∷ [], refl, (is, tt), refl)
  insert_by-in_front a [] (b ∷ back) is before h =
      (a ∷ [], rw ((before b (inl refl)).0) refl, (is, tt), refl)
  insert_by-in_front a (x ∷ front) back is before h = elim (Bool-cases (not_later a x)) [
    | inl e ↦ (a ∷ x ∷ front, rw e refl, (is, h), refl)
    | inr e ↦
        let (front', run, all, len) = insert_by-in_front a front back is before h.1 in
        (x ∷ front', rw (e, run) refl, (h.0, all), ap suc len)
  ]

  insert_by-behind :
      (a : A) (front back : List A)
      → ((b : A) → Has b front → Before b a)
      → insert_by not_later a (front ++ back) ≡ front ++ insert_by not_later a back
  unfolding insert_by
  insert_by-behind a [] back before = refl
  insert_by-behind a (x ∷ front) back before =
      rw ((before x (inl refl)).1)
        (ap (λ xs. x ∷ xs) (insert_by-behind a front back (λ b m. before b (inr m))))

  -- A sort puts them first, and keeps how many they are.
  pub order_by-front :
      (xs : List A)
      → ((a b : A) → Has a xs → Has b xs → p a ≡ true → p b ≡ false → Before a b)
      → (front : List A) × (back : List A) × (order_by not_later xs ≡ front ++ back)
        × All (λ x. p x ≡ true) front
        × All (λ x. p x ≡ false) back
        × (length front ≡ length (select p xs))
  unfolding order_by insert_by
  order_by-front [] before = ([], [], refl, tt, tt, refl)
  order_by-front (a ∷ xs) before =
      let (front, back, run, firsts, others, len) =
        order_by-front xs (λ x y m k. before x y (inr m) (inr k)) in
      let there : (b : A) → Has b (front ++ back) → Has b xs =
        λ b m. Has-order_by not_later b xs (subst (Has b) (sym run) m) in
      elim (Bool-cases (p a)) [
        | inl e ↦
            let (front', run', firsts', len') =
              insert_by-in_front a front back e
                (λ b m.
                  before a b (inl refl) (inr (there b (Has-append_right b front back m))) e
                    (All-Has (λ x. p x ≡ false) back b others m))
                firsts in
            (
              front',
              back,
              ap (insert_by not_later a) run ∙ run',
              firsts',
              others,
              rw e (len' ∙ ap suc len),
            )
        | inr e ↦ (
          front,
          insert_by not_later a back,
          ap (insert_by not_later a) run
              ∙ (insert_by-behind a front back (λ b m.
                  before b a (inr (there b (Has-append_left b front back m))) (inl refl)
                    (All-Has (λ x. p x ≡ true) front b firsts m) e)),
          firsts,
          others_behind a back e others,
          rw e len,
        )
      ]
    where
      others_behind :
          (a : A) (back : List A)
          → p a ≡ false
          → All (λ x. p x ≡ false) back
          → All (λ x. p x ≡ false) (insert_by not_later a back)
      others_behind a [] e h = (e, tt)
      others_behind a (b ∷ back) e h = elim (Bool-cases (not_later a b)) [
        | inl t ↦ rw t (e, h)
        | inr f ↦ rw f (h.0, others_behind a back e h.1)
      ]

  All-take_front :
      (n : ℕ) (front back : List A)
      → n ≤ length front
      → All (λ x. p x ≡ true) front
      → All (λ x. p x ≡ true) (take n (front ++ back))
  All-take_front zero front back le h = tt
  All-take_front (suc n) [] back le h = absurd (omega (arith, le))
  All-take_front (suc n) (x ∷ front) back le h =
      (h.0, All-take_front n front back (omega (arith, le)) h.1)

  -- The first rows of a sort are of the kind, as many as there are.
  pub All-take-order_by :
      (n : ℕ) (xs : List A)
      → n ≤ length (select p xs)
      → ((a b : A) → Has a xs → Has b xs → p a ≡ true → p b ≡ false → Before a b)
      → All (λ x. p x ≡ true) (take n (order_by not_later xs))
  All-take-order_by n xs le before =
      let (front, back, run, firsts, others, len) = order_by-front xs before in
      rw run (All-take_front n front back (omega (arith, le, len)) firsts)
