-- ===== src/Retrieval/Tests.antt =====
-- A search over a chain of three tags with one item under two of them.
use catchment.Prelude.{
  List, Table, Text, [], arith, false, find, length, nat_beq, nat_eq, pair_eq, refl, suc, text_eq,
  true, zero, ℕ, ◌*◌, ◌+◌, ◌-◌, ◌/◌, ◌<◌, ◌∷◌, ◌≡◌, ◌≤◌, ◌⊎◌,
}
use catchment.Prelude.Floats.{FloatOps, seven_tenths, three_tenths}
use catchment.Prelude.Json.{finite, one}
use catchment.Prelude.Least.{IsLeast}
use catchment.Prelude.Strip.{codes, strip}
use catchment.Storage.Models.{Vector}
use catchment.Storage.Session.{Result, integrity_error, ok, raise}
use catchment.Storage.Tests.{chain, sample}
use catchment.Retrieval.{SearchResult, search, walk}
use catchment.Retrieval.Walk.{Near, itself, walk-exact}
use catchment.Retrieval.Found.{IsPage, search-IsPage}
use catchment.Retrieval.Tagged.{Tagged}
use catchment.Storage.Items.{embedding_dim}
use native.Mathlib.Nat.{div-le_of_le-mul, mul-le-mul_left, mul-le-mul_right, one-le-mul}

one-positive : 0 < one
unfolding one
one-positive = omega arith

positive : (n : ℕ) → 0 < n → 0 < n * one
positive n h = one-le-mul h one-positive

weights_fit : seven_tenths + three_tenths ≤ one
unfolding seven_tenths three_tenths one
weights_fit = omega arith

-- Exact arithmetic on the units, rounded down.
abbrev exact : FloatOps
exact = record {
  add = λ a b. a + b;
  mul = λ a b. a * b / one;
  div = λ a b. a * one / b;
  above = λ a b. a - b;
  of_int = λ n. n * one;
  add_mono = λ a b c d h k. omega (arith, h, k);
  add_grows = λ a b. omega arith;
  mul_shrinks = λ a b h. div-le_of_le-mul one (omega (arith, mul-le-mul_left a h));
  div_shrinks = λ a b h. div-le_of_le-mul b (omega (arith, mul-le-mul_left a h));
  div_le_one = λ a b h p. div-le_of_le-mul b (mul-le-mul_right one h);
  of_int_mono = λ m n h. mul-le-mul_right one h;
  of_int_pos = positive;
  weights = weights_fit;
}

-- So many zeros.
abbrev zeros : ℕ → Vector
zeros zero = []
zeros (suc n) = finite false 0 ∷ zeros n

abbrev one_vector : List Text → Result (List Vector)
one_vector texts = ok (zeros embedding_dim ∷ [])

walk-exact_example :
    (depths : Table ℕ ℕ) × (walk 2 (7 ∷ []) (sample chain []) ≡ (ok depths, (sample chain [])))
    × ((t : ℕ)
        → IsLeast itself
            (Near (sample chain []).edges 2 (Tagged (sample chain []) (7 ∷ [])) t)
            (find t depths))
walk-exact_example = walk-exact 2 (7 ∷ []) (sample chain []) (omega arith) (omega arith)

search-IsPage_example :
    ((nat_beq (length (zeros embedding_dim)) embedding_dim ≡ true)
      × (r : SearchResult) × (search exact one_vector
            (λ a b. 0)
            2
            (codes " tea ")
            10
            5
            (sample chain [])
          ≡ (ok r, (sample chain [])))
      × IsPage 10 r)
    ⊎ ((nat_beq (length (zeros embedding_dim)) embedding_dim ≡ false)
        × (search exact one_vector (λ a b. 0) 2 (codes " tea ") 10 5 (sample chain [])
            ≡ (raise integrity_error, (sample chain []))))
unfolding strip
search-IsPage_example =
    search-IsPage exact one_vector (λ a b. 0) 2 (codes " tea ") 10 5 (zeros embedding_dim) []
      (sample chain []) (omega arith) (omega arith) refl refl
