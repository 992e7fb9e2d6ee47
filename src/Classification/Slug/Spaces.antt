-- ===== src/Classification/Slug/Spaces.antt =====
-- The slug of a label and that of the label stripped.
use catchment.Prelude.{
  All, Bool, Bool-cases, Text, [], ap, arith, false, inl, inr, ltb, nat_eq, pair_eq, refl, sym,
  text_eq, true, ℕ, ◌++◌, ◌∙◌, ◌∷◌, ◌≡◌,
}
use catchment.Prelude.Strip.{close_back, drop_back, drop_front, is_space, strip}
use catchment.Classification.Slug.{
  ascii_lower, bounded_slug, dash_runs, is_alnum, is_dash, lower, slugify,
}

-- NFKD changes a space into spaces and reorders nothing across it: the spaces around a text stay
-- spaces around what becomes of the rest.
abbrev pub KeepsSpaces : (Text → Text) → Type 0
KeepsSpaces normalize =
    (t : Text)
    → (front : Text) × (back : Text) × (normalize t ≡ front ++ (normalize (strip t) ++ back))
      × All (λ c. is_space c ≡ true) front
      × All (λ c. is_space c ≡ true) back

abbrev NoneAlnum : Text → Type 0
NoneAlnum = All (λ c. is_alnum c ≡ false)

ascii_lower-append : (a b : Text) → ascii_lower (a ++ b) ≡ ascii_lower a ++ ascii_lower b
unfolding ascii_lower
ascii_lower-append [] b = refl
ascii_lower-append (c ∷ a) b = ground (arith, ascii_lower-append a b)

space-NoneAlnum : (c : ℕ) → is_space c ≡ true → is_alnum (lower c) ≡ false
space-NoneAlnum c h = ground (arith, h)

ascii_lower-NoneAlnum : (a : Text) → All (λ c. is_space c ≡ true) a → NoneAlnum (ascii_lower a)
unfolding ascii_lower
ascii_lower-NoneAlnum [] h = tt
ascii_lower-NoneAlnum (c ∷ a) h = elim (Bool-cases (ltb c 128)) [
  | inl e ↦ rw e (space-NoneAlnum c h.0, ascii_lower-NoneAlnum a h.1)
  | inr e ↦ rw e (ascii_lower-NoneAlnum a h.1)
]

abbrev no_front : Bool → Text → Text
no_front in_run t = drop_front is_dash (dash_runs in_run t)

abbrev no_back : Bool → Text → Text
no_back in_run t = drop_back is_dash (dash_runs in_run t)

-- What the run before was shows only in a dash, which the front loses.
no_front-in_run : (t : Text) → no_front true t ≡ no_front false t
unfolding dash_runs drop_front
no_front-in_run [] = refl
no_front-in_run (c ∷ t) = elim (Bool-cases (is_alnum c)) [
  | inl e ↦ ground (arith, e)
  | inr e ↦ ground (arith, e)
]

no_front-append : (x t : Text) → NoneAlnum x → no_front true (x ++ t) ≡ no_front true t
unfolding dash_runs drop_front
no_front-append [] t h = refl
no_front-append (c ∷ x) t (e, h) = ground (arith, e, no_front-append x t h)

no_back-none : (in_run : Bool) (z : Text) → NoneAlnum z → no_back in_run z ≡ []
unfolding dash_runs drop_back
no_back-none in_run [] h = refl
no_back-none true (c ∷ z) (e, h) = ground (arith, e, no_back-none true z h)
no_back-none false (c ∷ z) (e, h) =
    ground (arith, e, ap (close_back is_dash 45) (no_back-none true z h))

no_back-append :
    (in_run : Bool) (t z : Text) → NoneAlnum z → no_back in_run (t ++ z) ≡ no_back in_run t
unfolding dash_runs drop_back
no_back-append in_run [] z h = no_back-none in_run z h
no_back-append in_run (c ∷ t) z h = elim (Bool-cases (is_alnum c)) [
  | inl e ↦ ground (arith, e, ap (close_back is_dash c) (no_back-append false t z h))
  | inr e ↦ after in_run e (no_back-append true t z h)
]
  where
    after :
        (run : Bool)
        → is_alnum c ≡ false
        → no_back true (t ++ z) ≡ no_back true t
        → no_back run (c ∷ (t ++ z)) ≡ no_back run (c ∷ t)
    after true e ih = ground (arith, e, ih)
    after false e ih = ground (arith, e, ap (close_back is_dash 45) ih)

kept_head :
    (p : ℕ → Bool) (c : ℕ) (t : Text)
    → p c ≡ false
    → drop_front p (close_back p c t) ≡ close_back p c t
unfolding drop_front
kept_head p c [] h = ground (arith, h)
kept_head p c (d ∷ t) h = ground (arith, h)

lost_head :
    (p : ℕ → Bool) (c : ℕ) (t : Text)
    → p c ≡ true
    → drop_front p (close_back p c t) ≡ drop_front p t
unfolding drop_front
lost_head p c [] h = ground (arith, h)
lost_head p c (d ∷ t) h = ground (arith, h)

-- The two ends of a text are stripped in either order.
drop_back-drop_front :
    (p : ℕ → Bool) (t : Text) → drop_back p (drop_front p t) ≡ drop_front p (drop_back p t)
unfolding drop_back drop_front
drop_back-drop_front p [] = refl
drop_back-drop_front p (c ∷ t) = elim (Bool-cases (p c)) [
  | inl e ↦ rw e (drop_back-drop_front p t ∙ sym (lost_head p c (drop_back p t) e))
  | inr e ↦ rw e (sym (kept_head p c (drop_back p t) e))
]

abbrev both_ends : Text → Text
both_ends t = drop_back is_dash (no_front false t)

both_ends-append :
    (x t z : Text) → NoneAlnum x → NoneAlnum z → both_ends (x ++ (t ++ z)) ≡ both_ends t
both_ends-append x t z h k =
    ap (drop_back is_dash) (
      sym (no_front-in_run (x ++ (t ++ z)))
      ∙ no_front-append x (t ++ z) h
      ∙ no_front-in_run (t ++ z))
    ∙ drop_back-drop_front is_dash (dash_runs false (t ++ z))
    ∙ ap (drop_front is_dash) (no_back-append false t z k)
    ∙ sym (drop_back-drop_front is_dash (dash_runs false t))

-- A label and the label stripped have one slug.
pub slugify-strip :
    (normalize : Text → Text) (t : Text)
    → KeepsSpaces normalize
    → slugify normalize (strip t) ≡ slugify normalize t
unfolding slugify
slugify-strip normalize t spaces =
    let (front, back, whole, fronts, backs) = spaces t in
    let inside = normalize (strip t) in
    ap bounded_slug (
      sym (
        ap (λ n. both_ends (ascii_lower n)) whole
        ∙ ap both_ends (
            ascii_lower-append front (inside ++ back)
            ∙ ap (λ n. ascii_lower front ++ n) (ascii_lower-append inside back))
        ∙ both_ends-append (ascii_lower front) (ascii_lower inside) (ascii_lower back)
            (ascii_lower-NoneAlnum front fronts) (ascii_lower-NoneAlnum back backs)))

front_spaces :
    (t : Text)
    → (front : Text) × (t ≡ front ++ drop_front is_space t) × All (λ c. is_space c ≡ true) front
unfolding drop_front
front_spaces [] = ([], refl, tt)
front_spaces (c ∷ t) = elim (Bool-cases (is_space c)) [
  | inl e ↦ let (front, q, h) = front_spaces t in (c ∷ front, rw e (ap (λ n. c ∷ n) q), (e, h))
  | inr e ↦ ([], rw e refl, tt)
]

back_spaces :
    (t : Text)
    → (back : Text) × (t ≡ drop_back is_space t ++ back) × All (λ c. is_space c ≡ true) back
unfolding drop_back
back_spaces [] = ([], refl, tt)
back_spaces (c ∷ t) = let (back, q, h) = back_spaces t in closed c t back (drop_back is_space t) q h
  where
    closed :
        (c : ℕ) (t back inside : Text)
        → t ≡ inside ++ back
        → All (λ c. is_space c ≡ true) back
        → (more : Text) × (c ∷ t ≡ close_back is_space c inside ++ more)
          × All (λ c. is_space c ≡ true) more
    closed c t back (d ∷ ds) q h = (back, ap (λ n. c ∷ n) q, h)
    closed c t back [] q h = elim (Bool-cases (is_space c)) [
      | inl e ↦ (c ∷ back, rw e (ap (λ n. c ∷ n) q), (e, h))
      | inr e ↦ (back, rw e (ap (λ n. c ∷ n) q), h)
    ]

-- A text that is normal already.
pub same-KeepsSpaces : KeepsSpaces (λ t. t)
unfolding strip
same-KeepsSpaces t =
    let (front, q, fronts) = front_spaces t in
    let (back, r, backs) = back_spaces (drop_front is_space t) in
    (front, back, q ∙ ap (λ n. front ++ n) r, fronts, backs)
