-- ===== src/Prelude/Lists.antt =====
-- Lists measured by native numbers, and the predicates by recursion that the tactics read.
use Prim.Native.Nat.{ℕ, zero, suc, ◌+◌, ◌≤◌}
use mathlib.Core.Path.{◌≡◌, refl, sym, ap, subst}
use mathlib.Core.Logic.{◌⊎◌, inl, inr}
use mathlib.Core.Bool.{Bool, true, false, ◌||◌, false≢true}
use mathlib.Core.List.{List, [], ◌∷◌, ◌++◌, map}
use native.Mathlib.Omega.{arith}
use catchment.Prelude.Tests.{Bool-cases, Eq, ◌==◌, if◌then◌else◌}

module _ {ℓ} {A : Type ℓ} where
  abbrev pub length : List A → ℕ
  length [] = 0
  length (x ∷ xs) = suc (length xs)

  pub length-append : (xs ys : List A) → length (xs ++ ys) ≡ length xs + length ys
  length-append [] ys = omega arith
  length-append (x ∷ xs) ys = omega (arith, length-append xs ys)

  abbrev pub take : ℕ → List A → List A
  take zero xs = []
  take (suc n) [] = []
  take (suc n) (x ∷ xs) = x ∷ take n xs

  pub length-take-le : (n : ℕ) (xs : List A) → length (take n xs) ≤ n
  length-take-le zero xs = omega arith
  length-take-le (suc n) [] = omega arith
  length-take-le (suc n) (x ∷ xs) = omega (arith, length-take-le n xs)

  -- A comprehension `[x for x in xs if p x]`.
  abbrev pub select : (A → Bool) → List A → List A
  select p [] = []
  select p (x ∷ xs) = if p x then x ∷ select p xs else select p xs

  pub length-select-le : (p : A → Bool) (xs : List A) → length (select p xs) ≤ length xs
  length-select-le p [] = omega arith
  length-select-le p (x ∷ xs) = ground (arith, length-select-le p xs)

-- A predicate of every element.
abbrev pub All {ℓ κ} : {A : Type ℓ} → (A → Type κ) → List A → Type κ
All P [] = Unit
All P (x ∷ xs) = P x × All P xs

-- The element is among those of the list: the evidence says where (rows stand in `Type 0`).
abbrev pub Has : {A : Type 0} → A → List A → Type 0
Has x [] = ⊥
Has x (y ∷ ys) = (y ≡ x) ⊎ Has x ys

module _ {A : Type 0} where
  pub Has-append_left : (x : A) (xs ys : List A) → Has x xs → Has x (xs ++ ys)
  Has-append_left x (y ∷ xs) ys (inl e) = inl e
  Has-append_left x (y ∷ xs) ys (inr h) = inr (Has-append_left x xs ys h)
  Has-append_left x [] ys h = absurd h

  pub Has-append_right : (x : A) (xs ys : List A) → Has x ys → Has x (xs ++ ys)
  Has-append_right x [] ys h = h
  Has-append_right x (y ∷ xs) ys h = inr (Has-append_right x xs ys h)

  pub Has-append : (x : A) (xs ys : List A) → Has x (xs ++ ys) → Has x xs ⊎ Has x ys
  Has-append x [] ys h = inr h
  Has-append x (y ∷ xs) ys (inl e) = inl (inl e)
  Has-append x (y ∷ xs) ys (inr h) = elim (Has-append x xs ys h) [
    | inl a ↦ inl (inr a)
    | inr b ↦ inr b
  ]

  pub Has-map : {B : Type 0} (f : A → B) (x : A) (xs : List A) → Has x xs → Has (f x) (map f xs)
  Has-map f x (y ∷ xs) (inl e) = inl (ap f e)
  Has-map f x (y ∷ xs) (inr h) = inr (Has-map f x xs h)
  Has-map f x [] h = absurd h

  pub Has-of_map :
      {B : Type 0} (f : A → B) (y : B) (xs : List A)
      → Has y (map f xs)
      → (x : A) × Has x xs × (f x ≡ y)
  Has-of_map f y (x ∷ xs) (inl e) = (x, inl refl, e)
  Has-of_map f y (x ∷ xs) (inr h) = let (z, m, e) = Has-of_map f y xs h in (z, inr m, e)
  Has-of_map f y [] h = absurd h

  pub All-Has {κ} : (P : A → Type κ) (xs : List A) (x : A) → All P xs → Has x xs → P x
  All-Has P (y ∷ xs) x h (inl e) = subst P e h.0
  All-Has P (y ∷ xs) x h (inr m) = All-Has P xs x h.1 m
  All-Has P [] x h m = absurd m

module _ {A : Type 0} where
  pub All-mono : (P Q : A → Type 0) (xs : List A) → ((x : A) → P x → Q x) → All P xs → All Q xs
  All-mono P Q [] f h = tt
  All-mono P Q (x ∷ xs) f h = (f x h.0, All-mono P Q xs f h.1)

  pub All-append : (P : A → Type 0) (xs ys : List A) → All P xs → All P ys → All P (xs ++ ys)
  All-append P [] ys h k = k
  All-append P (x ∷ xs) ys h k = (h.0, All-append P xs ys h.1 k)

  pub All-take : (P : A → Type 0) (n : ℕ) (xs : List A) → All P xs → All P (take n xs)
  All-take P zero xs h = tt
  All-take P (suc n) [] h = tt
  All-take P (suc n) (x ∷ xs) h = (h.0, All-take P n xs h.1)

  pub length-map : {B : Type 0} (f : A → B) (xs : List A) → length (map f xs) ≡ length xs
  length-map f [] = refl
  length-map f (x ∷ xs) = ap suc (length-map f xs)

  pub All-of_map :
      {B : Type 0} (P : B → Type 0) (f : A → B) (xs : List A)
      → ((x : A) → P (f x))
      → All P (map f xs)
  All-of_map P f [] h = tt
  All-of_map P f (x ∷ xs) h = (h x, All-of_map P f xs h)

  -- Every element stands in the relation to each one after it.
  abbrev pub Ordered : (A → A → Type 0) → List A → Type 0
  Ordered R [] = Unit
  Ordered R (x ∷ xs) = All (R x) xs × Ordered R xs

  pub Ordered-take :
      (R : A → A → Type 0) (n : ℕ) (xs : List A) → Ordered R xs → Ordered R (take n xs)
  Ordered-take R zero xs h = tt
  Ordered-take R (suc n) [] h = tt
  Ordered-take R (suc n) (x ∷ xs) h = (All-take (R x) n xs h.0, Ordered-take R n xs h.1)

-- Python's `x in xs`, and `any`.
module _ {ℓ} {A : Type ℓ} where
  abbrev pub any : (A → Bool) → List A → Bool
  any p [] = false
  any p (x ∷ xs) = p x || any p xs

  abbrev pub contains : ⦃e : Eq A⦄ → A → List A → Bool
  contains x [] = false
  contains x (y ∷ ys) = y == x || contains x ys

module _ {A : Type 0} where
  pub any-Has : (p : A → Bool) (xs : List A) → any p xs ≡ true → (x : A) × Has x xs × (p x ≡ true)
  any-Has p [] h = absurd (false≢true h)
  any-Has p (x ∷ xs) h = elim (Bool-cases (p x)) [
    | inl e ↦ (x, inl refl, e)
    | inr e ↦ let (y, m, k) = any-Has p xs (ground arith) in (y, inr m, k)
  ]

  pub Has-any : (p : A → Bool) (x : A) (xs : List A) → Has x xs → p x ≡ true → any p xs ≡ true
  Has-any p x (y ∷ xs) (inl e) h = ground arith
  Has-any p x (y ∷ xs) (inr m) h = ground (arith, Has-any p x xs m h)
  Has-any p x [] m h = absurd m

module _ {A : Type 0} where
  pub Has-take : (n : ℕ) (x : A) (xs : List A) → Has x (take n xs) → Has x xs
  Has-take zero x xs h = absurd h
  Has-take (suc n) x [] h = h
  Has-take (suc n) x (y ∷ xs) (inl e) = inl e
  Has-take (suc n) x (y ∷ xs) (inr h) = inr (Has-take n x xs h)

  pub Has-select :
      (p : A → Bool) (x : A) (xs : List A) → Has x (select p xs) → Has x xs × (p x ≡ true)
  Has-select p x [] h = absurd h
  Has-select p x (y ∷ xs) h = elim (Bool-cases (p y)) [
    | inl e ↦ elim (rw (e) at h) [
      | inl q ↦ (inl q, subst (λ z. p z ≡ true) q e)
      | inr m ↦ let (k, t) = Has-select p x xs m in (inr k, t)
    ]
    | inr e ↦ let (k, t) = Has-select p x xs (rw (e) at h) in (inr k, t)
  ]

  pub Has-select_in :
      (p : A → Bool) (x : A) (xs : List A) → Has x xs → p x ≡ true → Has x (select p xs)
  Has-select_in p x (y ∷ xs) (inl q) h = rw (subst (λ z. p z ≡ true) (sym q) h) (inl q)
  Has-select_in p x (y ∷ xs) (inr m) h = elim (Bool-cases (p y)) [
    | inl e ↦ rw e (inr (Has-select_in p x xs m h))
    | inr e ↦ rw e (Has-select_in p x xs m h)
  ]
  Has-select_in p x [] m h = absurd m
