-- ===== src/Storage/TagGraph/Tests.antt =====
-- A drawing of a chain of three tags, and of one beside it.
use catchment.Prelude.{
  IsKeyed, Option, Table, Text, [], arith, find, nat_eq, none, pair_eq, refl, some, text_eq, ℕ, ◌∷◌,
  ◌≡◌,
}
use catchment.Prelude.Int.{abs, pos, ℤ}
use catchment.Prelude.Least.{IsLeast}
use catchment.Storage.Session.{ok}
use catchment.Storage.Proposals.{UuidText}
use catchment.Storage.Merge.Repointing.{NamesTags}
use catchment.Storage.Tests.{chain, middle, sample}
use catchment.Storage.TagGraph.{TagNeighbourhood, levels_of, neighbourhood}
use catchment.Storage.TagGraph.Levels.{Placed, levels_of-exact}
use catchment.Storage.TagGraph.Whole.{IsDrawing, neighbourhood-IsDrawing}

abbrev read_letter : Text → Option ℕ
read_letter (id ∷ []) = some id
read_letter _ = none

-- A UUID written as the one character with its number.
abbrev one_letter : UuidText
one_letter = record { show = λ id. id ∷ []; read = read_letter; read-show = λ id. refl }

sample_tags-IsKeyed : IsKeyed (sample chain []).tags
unfolding find
sample_tags-IsKeyed = (refl, (refl, (refl, (refl, tt))))

chain-NamesTags : NamesTags (sample chain []) (sample chain []).edges
unfolding find
chain-NamesTags = (refl, (refl, tt))

levels_of-exact_example :
    (levels : Table ℕ ℤ) × (levels_of 5 middle 1 (sample chain []) ≡ (ok levels, (sample chain [])))
    × IsKeyed levels
    × (find middle levels ≡ some (pos 0))
    × ((t : ℕ) → IsLeast abs (Placed (sample chain []).edges middle 1 t) (find t levels))
levels_of-exact_example = levels_of-exact 5 middle 1 (sample chain []) (omega arith) (omega arith)

neighbourhood-IsDrawing_example :
    (n : TagNeighbourhood) × (neighbourhood one_letter 5 middle 1 (sample chain [])
      ≡ (ok (some n), (sample chain [])))
    × IsDrawing (sample chain []) middle 1 n
unfolding find
neighbourhood-IsDrawing_example =
    neighbourhood-IsDrawing one_letter 5 middle 1 (sample chain []) (omega arith) (omega arith)
      (omega arith) refl sample_tags-IsKeyed chain-NamesTags
