-- ===== src/Classification/Slug/Shape.antt =====
-- The shape of a slug, and that a slug is its own slug.
use catchment.Prelude.{
  Bool, Bool-cases, Text, [], arith, false, inl, inr, length, length-take-le, nat_eq, not, pair_eq,
  refl, subst, suc, take, text_eq, true, zero, ℕ, ◌&&◌, ◌||◌, ◌∷◌, ◌≡◌, ◌≤◌,
}
use catchment.Prelude.Strip.{close_back, drop_back, drop_front, is_empty}
use catchment.Storage.Session.{ok}
use catchment.Classification.Slug.{
  ascii_lower, bounded_slug, dash_runs, is_alnum, is_dash, max_slug_length, slugify,
}

-- Letters, digits and dashes, with no dash at the start (where the flag says so) or after a dash.
abbrev pub is_clean : Bool → Text → Bool
is_clean after_dash [] = true
is_clean after_dash (c ∷ cs) =
    is_alnum c && is_clean false cs || is_dash c && not after_dash && is_clean true cs

abbrev pub ends_in_dash : Text → Bool
ends_in_dash [] = false
ends_in_dash (c ∷ []) = is_dash c
ends_in_dash (c ∷ d ∷ cs) = ends_in_dash (d ∷ cs)

-- At least one character and at most `max_slug_length`, letters and digits in groups joined by
-- single dashes.
pub record IsSlug (t : Text) : Type 0 where
  pub some_char : is_empty t ≡ false
  pub bounded : length t ≤ max_slug_length
  pub clean : is_clean true t ≡ true
  pub no_last_dash : ends_in_dash t ≡ false

pub is_clean-dash_runs : (b : Bool) (t : Text) → is_clean b (dash_runs b t) ≡ true
unfolding dash_runs
is_clean-dash_runs b [] = refl
is_clean-dash_runs true (c ∷ cs) =
    ground (arith, is_clean-dash_runs true cs, is_clean-dash_runs false cs)
is_clean-dash_runs false (c ∷ cs) =
    ground (arith, is_clean-dash_runs true cs, is_clean-dash_runs false cs)

pub is_clean-drop_front :
    (t : Text) → is_clean false t ≡ true → is_clean true (drop_front is_dash t) ≡ true
unfolding drop_front
is_clean-drop_front [] h = refl
is_clean-drop_front (c ∷ cs) h = ground (arith, starts cs)
  where
    starts : (ds : Text) → is_clean true ds ≡ true → drop_front is_dash ds ≡ ds
    starts [] k = refl
    starts (d ∷ ds) k = ground arith

is_clean-close_back :
    (b : Bool) (c : ℕ) (rest : Text)
    → is_clean b (c ∷ rest) ≡ true
    → is_clean b (close_back is_dash c rest) ≡ true
is_clean-close_back b c [] h = ground arith
is_clean-close_back b c (d ∷ ds) h = h

pub is_clean-drop_back :
    (b : Bool) (t : Text) → is_clean b t ≡ true → is_clean b (drop_back is_dash t) ≡ true
unfolding drop_back
is_clean-drop_back b [] h = refl
is_clean-drop_back b (c ∷ cs) h =
    is_clean-close_back b c (drop_back is_dash cs)
      (ground (arith, is_clean-drop_back false cs, is_clean-drop_back true cs))

is_clean-take : (b : Bool) (n : ℕ) (t : Text) → is_clean b t ≡ true → is_clean b (take n t) ≡ true
is_clean-take b zero t h = refl
is_clean-take b (suc n) [] h = refl
is_clean-take b (suc n) (c ∷ cs) h =
    ground (arith, is_clean-take false n cs, is_clean-take true n cs)

close_back-ends :
    (c : ℕ) (rest : Text)
    → ends_in_dash rest ≡ false
    → ends_in_dash (close_back is_dash c rest) ≡ false
close_back-ends c [] h = ground arith
close_back-ends c (d ∷ ds) h = h

drop_back-ends : (t : Text) → ends_in_dash (drop_back is_dash t) ≡ false
unfolding drop_back
drop_back-ends [] = refl
drop_back-ends (c ∷ cs) = close_back-ends c (drop_back is_dash cs) (drop_back-ends cs)

length-close_back : (c : ℕ) (rest : Text) → length (close_back is_dash c rest) ≤ suc (length rest)
length-close_back c [] = ground arith
length-close_back c (d ∷ ds) = omega arith

length-drop_back : (t : Text) → length (drop_back is_dash t) ≤ length t
unfolding drop_back
length-drop_back [] = omega arith
length-drop_back (c ∷ cs) =
    omega (arith, length-close_back c (drop_back is_dash cs), length-drop_back cs)

-- What is cut still starts with a letter or a digit, which is not stripped.
close_back-some :
    (c : ℕ) (rest : Text) → is_dash c ≡ false → is_empty (close_back is_dash c rest) ≡ false
close_back-some c [] h = ground arith
close_back-some c (d ∷ ds) h = refl

cut-some :
    (n : ℕ) (t : Text)
    → is_clean true t ≡ true
    → is_empty t ≡ false
    → is_empty (drop_back is_dash (take (suc n) t)) ≡ false
unfolding drop_back
cut-some n [] h e = e
cut-some n (c ∷ cs) h e = close_back-some c (drop_back is_dash (take n cs)) (ground arith)

pub bounded_slug-IsSlug :
    (t slug : Text) → is_clean true t ≡ true → bounded_slug t ≡ ok slug → IsSlug slug
unfolding bounded_slug
bounded_slug-IsSlug t slug h e = elim (Bool-cases (is_empty t)) [
  | inl empty ↦ absurd (ground (arith, empty, e))
  | inr some' ↦
      let cut = drop_back is_dash (take max_slug_length t) in
      let same : cut ≡ slug = ground (arith, some', e) in
      subst IsSlug same (record {
        some_char = cut-some 127 t h some';
        bounded =
            omega
              (arith, length-drop_back (take max_slug_length t), length-take-le max_slug_length t);
        clean =
            is_clean-drop_back true (take max_slug_length t)
              (is_clean-take true max_slug_length t h);
        no_last_dash = drop_back-ends (take max_slug_length t);
      })
]

module _ (normalize : Text → Text) where
  -- Whatever the label, what `slugify` returns is a slug.
  pub slugify-IsSlug : (label slug : Text) → slugify normalize label ≡ ok slug → IsSlug slug
  unfolding slugify
  slugify-IsSlug label slug e =
      let runs = dash_runs false (ascii_lower (normalize label)) in
      bounded_slug-IsSlug (drop_back is_dash (drop_front is_dash runs)) slug
        (is_clean-drop_back true (drop_front is_dash runs)
          (is_clean-drop_front runs (is_clean-dash_runs false (ascii_lower (normalize label)))))
        e
