-- ===== src/Classification/Service/Cap.antt =====
-- `_cap_new_tags`: which suggestions are kept.
use catchment.Prelude.{
  Bool-cases, List, Text, [], arith, contains, if◌then◌else◌, inl, inr, leb, leb→le, length, nat_eq,
  pair_eq, suc, text_eq, ℕ, ◌+◌, ◌-◌, ◌∷◌, ◌≡◌, ◌≤◌,
}
use catchment.Classification.Types.{TagSuggestion}
use catchment.Classification.Service.{cap_loop, cap_round, coined_next}

abbrev pub Slugged : Type 0
Slugged = List (Text × TagSuggestion)

-- How many of the suggestions have a slug outside the list.
abbrev pub new_ones : List Text → Slugged → ℕ
new_ones existing [] = 0
new_ones existing ((slug, s) ∷ rest) =
    if contains slug existing then new_ones existing rest else suc (new_ones existing rest)

-- Where no more than the limit were kept as new so far, every suggestion is kept or counted as
-- capped, and as many are capped as there are new ones beyond the room that is left under the
-- limit.
pub cap_loop-counts :
    (existing : List Text) (limit coined : ℕ) (l : Slugged)
    → coined ≤ limit
    → (length (cap_loop existing limit coined l).kept + (cap_loop existing limit coined l).capped
        ≡ length l)
      × ((cap_loop existing limit coined l).capped ≡ new_ones existing l - (limit - coined))
unfolding cap_loop cap_round coined_next
cap_loop-counts existing limit coined [] h = (omega arith, omega arith)
cap_loop-counts existing limit coined ((slug, s) ∷ rest) h =
    elim (Bool-cases (contains slug existing)) [
      | inl old ↦ rw old (ground (arith, cap_loop-counts existing limit coined rest h))
      | inr new ↦ elim (Bool-cases (leb limit coined)) [
        | inl full ↦
            rw (new, full)
              (ground
                (arith, cap_loop-counts existing limit coined rest h, leb→le limit coined full))
        | inr room ↦
            rw (new, room)
              (ground
                (arith, cap_loop-counts existing limit (suc coined) rest (ground (arith, room))))
      ]
    ]
