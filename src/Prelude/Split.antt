-- ===== src/Prelude/Split.antt =====
-- Python's `str.split` on one character, and `str.startswith`.
use Prim.Native.Nat.{ℕ}
use mathlib.Core.Path.{◌≡◌, refl, ap, ◌∙◌}
use mathlib.Core.List.{List, [], ◌∷◌, ◌++◌}
use mathlib.Core.Option.{Option, none, some}
use mathlib.Core.Logic.{inl, inr}
use native.Mathlib.Omega.{arith}
use catchment.Prelude.Tests.{Text, nat_beq, nat_beq_iff, if◌then◌else◌, Bool-cases}

abbrev onto_first : ℕ → List Text → List Text
onto_first c [] = (c ∷ []) ∷ []
onto_first c (part ∷ parts) = (c ∷ part) ∷ parts

unfoldable pub split : ℕ → Text → List Text
split sep [] = [] ∷ []
split sep (c ∷ cs) =
    let rest = split sep cs in if nat_beq c sep then [] ∷ rest else onto_first c rest

unfoldable pub join : ℕ → List Text → Text
join sep [] = []
join sep (part ∷ []) = part
join sep (part ∷ next ∷ parts) = part ++ sep ∷ join sep (next ∷ parts)

-- What follows the prefix, where the text starts with it.
unfoldable pub after_prefix : Text → Text → Option Text
after_prefix [] t = some t
after_prefix (p ∷ ps) [] = none
after_prefix (p ∷ ps) (c ∷ cs) = if nat_beq p c then after_prefix ps cs else none

pub after_prefix-append : (p t : Text) → after_prefix p (p ++ t) ≡ some t
unfolding after_prefix
after_prefix-append [] t = refl
after_prefix-append (c ∷ p) t = ground (arith, after_prefix-append p t)

pub append-after_prefix : (p t rest : Text) → after_prefix p t ≡ some rest → p ++ rest ≡ t
unfolding after_prefix
append-after_prefix [] t rest h = ground (arith, h)
append-after_prefix (c ∷ p) [] rest h = ground (arith, h)
append-after_prefix (c ∷ p) (d ∷ t) rest h =
    ground (arith, h, nat_beq_iff c d, append-after_prefix p t rest)

join-onto_first :
    (sep c : ℕ) (parts : List Text) → join sep (onto_first c parts) ≡ c ∷ join sep parts
unfolding join
join-onto_first sep c [] = refl
join-onto_first sep c (part ∷ []) = refl
join-onto_first sep c (part ∷ next ∷ parts) = refl

split-some :
    (sep : ℕ) (t : Text) → (part : Text) × (parts : List Text) × (split sep t ≡ part ∷ parts)
unfolding split
split-some sep [] = ([], [], refl)
split-some sep (c ∷ cs) = elim (Bool-cases (nat_beq c sep)) [
  | inl e ↦ ([], split sep cs, rw e refl)
  | inr e ↦ let (part, parts, same) = split-some sep cs in (c ∷ part, parts, rw (e, same) refl)
]

-- Splitting loses nothing, so two texts that split alike are one.
pub join-split : (sep : ℕ) (t : Text) → join sep (split sep t) ≡ t
unfolding split join
join-split sep [] = refl
join-split sep (c ∷ cs) = elim (Bool-cases (nat_beq c sep)) [
  | inl e ↦
      let (part, parts, same) = split-some sep cs in
      rw (e, same) (ground (arith, nat_beq_iff c sep, e, join-split sep cs, ap (join sep) same))
  | inr e ↦ rw e (join-onto_first sep c (split sep cs) ∙ ap (λ t. c ∷ t) (join-split sep cs))
]
