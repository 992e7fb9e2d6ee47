-- ===== src/Classification/Slug/Fixed.antt =====
-- A slug is its own slug, and which labels have none.
use catchment.Prelude.{
  All, Bool, Bool-cases, Text, [], any, ap, arith, false, inl, inr, length, nat_eq, not, pair_eq,
  refl, suc, take, text_eq, true, zero, ℕ, ◌<◌, ◌||◌, ◌∙◌, ◌∷◌, ◌≡◌, ◌≤◌, ◌⊎◌,
}
use catchment.Prelude.Strip.{close_back, drop_back, drop_front, is_empty}
use catchment.Storage.Session.{ok, raise, value_error}
use catchment.Classification.Slug.{
  ascii_lower, bounded_slug, dash_runs, is_alnum, is_dash, max_slug_length, slugify,
}
use catchment.Classification.Slug.Shape.{
  IsSlug, bounded_slug-IsSlug, ends_in_dash, is_clean, is_clean-dash_runs, is_clean-drop_back,
  is_clean-drop_front,
}

-- A clean text may follow a letter too.
is_clean-relax : (t : Text) → is_clean true t ≡ true → is_clean false t ≡ true
is_clean-relax [] h = refl
is_clean-relax (c ∷ cs) h = ground arith

is_clean-tail :
    (b : Bool) (c : ℕ) (cs : Text) → is_clean b (c ∷ cs) ≡ true → is_clean false cs ≡ true
is_clean-tail b c cs h = ground (arith, is_clean-relax cs)

All-ascii : (t : Text) → is_clean false t ≡ true → All (λ c. c < 128) t
All-ascii [] h = tt
All-ascii (c ∷ cs) h = (ground arith, All-ascii cs (is_clean-tail false c cs h))

ascii_lower-clean : (t : Text) → is_clean false t ≡ true → ascii_lower t ≡ t
unfolding ascii_lower
ascii_lower-clean [] h = refl
ascii_lower-clean (c ∷ cs) h = ground (arith, ascii_lower-clean cs (is_clean-tail false c cs h))

dash_runs-clean : (b : Bool) (t : Text) → is_clean b t ≡ true → dash_runs b t ≡ t
unfolding dash_runs
dash_runs-clean b [] h = refl
dash_runs-clean b (c ∷ cs) h = ground (arith, dash_runs-clean true cs, dash_runs-clean false cs)

drop_front-clean : (t : Text) → is_clean true t ≡ true → drop_front is_dash t ≡ t
unfolding drop_front
drop_front-clean [] h = refl
drop_front-clean (c ∷ cs) h = ground arith

close_back-last :
    (c : ℕ) (rest : Text) → ends_in_dash (c ∷ rest) ≡ false → close_back is_dash c rest ≡ c ∷ rest
close_back-last c [] h = ground arith
close_back-last c (d ∷ ds) h = refl

ends_in_dash-tail :
    (c : ℕ) (rest : Text) → ends_in_dash (c ∷ rest) ≡ false → ends_in_dash rest ≡ false
ends_in_dash-tail c [] h = refl
ends_in_dash-tail c (d ∷ ds) h = h

drop_back-last : (t : Text) → ends_in_dash t ≡ false → drop_back is_dash t ≡ t
unfolding drop_back
drop_back-last [] h = refl
drop_back-last (c ∷ cs) h =
    rw (drop_back-last cs (ends_in_dash-tail c cs h)) (close_back-last c cs h)

take-all : (n : ℕ) (t : Text) → length t ≤ n → take n t ≡ t
take-all zero [] h = refl
take-all zero (c ∷ cs) h = absurd (omega arith)
take-all (suc n) [] h = refl
take-all (suc n) (c ∷ cs) h = ap (λ r. c ∷ r) (take-all n cs (omega arith))

bounded_slug-fixed : (t : Text) → IsSlug t → bounded_slug t ≡ ok t
unfolding bounded_slug
bounded_slug-fixed t h =
    rw (h.some_char, take-all max_slug_length t h.bounded, drop_back-last t h.no_last_dash)

-- Characters that can stand in a slug.
abbrev pub has_alnum : Text → Bool
has_alnum = any is_alnum

module _ (normalize : Text → Text) where
  -- `slugify` leaves a slug as it is, where normalising leaves ASCII text as it is.
  pub slugify-fixed :
      ((t : Text) → All (λ c. c < 128) t → normalize t ≡ t)
      → (slug : Text) → IsSlug slug
      → slugify normalize slug ≡ ok slug
  unfolding slugify
  slugify-fixed ascii slug h =
      let loose = is_clean-relax slug h.clean in
      rw
        (
          ascii slug (All-ascii slug loose),
          ascii_lower-clean slug loose,
          dash_runs-clean false slug loose,
          drop_front-clean slug h.clean,
          drop_back-last slug h.no_last_dash,
        )
        (bounded_slug-fixed slug h)

-- What strips to nothing has no letter and no digit, and the other way.
dash_runs-alnum : (b : Bool) (t : Text) → has_alnum (dash_runs b t) ≡ has_alnum t
unfolding dash_runs
dash_runs-alnum b [] = refl
dash_runs-alnum true (c ∷ cs) = ground (arith, dash_runs-alnum true cs, dash_runs-alnum false cs)
dash_runs-alnum false (c ∷ cs) = ground (arith, dash_runs-alnum true cs, dash_runs-alnum false cs)

drop_front-alnum : (t : Text) → has_alnum (drop_front is_dash t) ≡ has_alnum t
unfolding drop_front
drop_front-alnum [] = refl
drop_front-alnum (c ∷ cs) = ground (arith, drop_front-alnum cs)

close_back-alnum :
    (c : ℕ) (rest : Text) → has_alnum (close_back is_dash c rest) ≡ (is_alnum c || has_alnum rest)
close_back-alnum c [] = ground arith
close_back-alnum c (d ∷ ds) = refl

drop_back-alnum : (t : Text) → has_alnum (drop_back is_dash t) ≡ has_alnum t
unfolding drop_back
drop_back-alnum [] = refl
drop_back-alnum (c ∷ cs) =
    close_back-alnum c (drop_back is_dash cs) ∙ ap (λ r. is_alnum c || r) (drop_back-alnum cs)

clean-alnum : (t : Text) → is_clean true t ≡ true → is_empty t ≡ not (has_alnum t)
clean-alnum [] h = refl
clean-alnum (c ∷ cs) h = ground arith

bounded_slug-empty : (t : Text) → is_empty t ≡ true → bounded_slug t ≡ raise value_error
unfolding bounded_slug
bounded_slug-empty t h = rw h

bounded_slug-some :
    (t : Text)
    → is_empty t ≡ false
    → bounded_slug t ≡ ok (drop_back is_dash (take max_slug_length t))
unfolding bounded_slug
bounded_slug-some t h = rw h

module _ (normalize : Text → Text) where
  -- `slugify` refuses a label exactly when no letter or digit is left of it in ASCII; any other label
  -- has a slug.
  pub slugify-total :
      (label : Text)
      → ((has_alnum (ascii_lower (normalize label)) ≡ false)
          × (slugify normalize label ≡ raise value_error))
        ⊎ ((has_alnum (ascii_lower (normalize label)) ≡ true)
            × (slug : Text) × (slugify normalize label ≡ ok slug)
            × IsSlug slug)
  unfolding slugify
  slugify-total label =
      let ascii = ascii_lower (normalize label) in
      let runs = dash_runs false ascii in
      let slug = drop_back is_dash (drop_front is_dash runs) in
      let clean : is_clean true slug ≡ true =
        is_clean-drop_back true (drop_front is_dash runs)
          (is_clean-drop_front runs (is_clean-dash_runs false ascii)) in
      let counts : is_empty slug ≡ not (has_alnum ascii) =
        clean-alnum slug clean
        ∙ ap not (
            drop_back-alnum (drop_front is_dash runs)
            ∙ drop_front-alnum runs
            ∙ dash_runs-alnum false ascii) in
      elim (Bool-cases (has_alnum ascii)) [
        | inr none' ↦ inl (none', bounded_slug-empty slug (counts ∙ ap not none'))
        | inl some' ↦
            let done = bounded_slug-some slug (counts ∙ ap not some') in
            inr (
              some',
              drop_back is_dash (take max_slug_length slug),
              done,
              bounded_slug-IsSlug slug _ clean done,
            )
      ]
