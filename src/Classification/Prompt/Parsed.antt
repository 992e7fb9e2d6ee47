-- ===== src/Classification/Prompt/Parsed.antt =====
-- What `parse_response` lets through.
use catchment.Prelude.{
  All, Bool-cases, List, Option, Text, [], ap, arith, contains, false, inl, inr, leb, length,
  length-take-le, nat_eq, none, not, pair_eq, refl, some, subst, suc, take, text_beq_iff, text_eq,
  true, ℕ, ◌*◌, ◌∙◌, ◌∷◌, ◌≡◌, ◌≢◌, ◌≤◌,
}
use catchment.Prelude.Json.{
  Fields, Float, Json, arr, bool, finite, float, get, inf, int, nan, null, obj, one, str, to_list,
}
use catchment.Prelude.Strip.{codes, strip}
use catchment.Storage.Models.{Confidence}
use catchment.Storage.Session.{Result, Result-cases, ok, raise}
use catchment.Classification.Slug.{slugify}
use catchment.Classification.Types.{TagSuggestion, slug_of}
use catchment.Classification.Prompt.{
  build_suggestion, cons_to, float_limit, in_unit_range, known_slugs, load_json, max_suggestions,
  parse_response, read_confidence, read_entries, read_tags, slug_or_none, some_suggestion,
  to_parent_slug, to_suggestion, trusted, with_label, with_slug,
}
use catchment.Classification.Slug.Spaces.{KeepsSpaces, slugify-strip}

module _ (normalize : Text → Text) (known : List Text) where
  -- A suggestion as the classifier may be trusted with it: its label has a slug, its confidence is
  -- in range, it is new exactly when that slug is not among those shown, and a parent is among those
  -- and not that slug.
  pub record IsTrusted (s : TagSuggestion) : Type 0 where
    pub slug : Text
    pub named : slug_of normalize s ≡ ok slug
    pub in_range : s.confidence ≤ one
    pub novelty : s.is_new ≡ not (contains slug known)
    pub parent : (p : Text) → s.broader_than ≡ some p → (contains p known ≡ true) × (p ≢ slug)

  -- The slugs of the suggestions are all there, none is among those seen, and no two are equal.
  abbrev pub IsFresh : List Text → List TagSuggestion → Type 0
  IsFresh seen [] = Unit
  IsFresh seen (s ∷ rest) =
      (slug : Text) × (slug_of normalize s ≡ ok slug)
      × (contains slug seen ≡ false)
      × IsFresh (slug ∷ seen) rest

  in_unit_range-le : (f : Float) (c : Confidence) → in_unit_range f ≡ some c → c ≤ one
  unfolding in_unit_range
  in_unit_range-le nan c h = cc
  in_unit_range-le (inf b) c h = cc
  in_unit_range-le (finite true n) c h = ground (arith, h)
  in_unit_range-le (finite false n) c h = ground (arith, h)

  read_confidence-le :
      (j : Option Json) (c : Confidence) → read_confidence j ≡ ok (some c) → c ≤ one
  unfolding read_confidence
  read_confidence-le (some (int b n)) c h = elim (Bool-cases (leb float_limit n)) [
    | inl e ↦ absurd (ground (arith, e, h))
    | inr e ↦ in_unit_range-le (finite b (n * one)) c (ground (arith, e, h))
  ]
  read_confidence-le (some (float f)) c h = in_unit_range-le f c (ground arith)
  read_confidence-le none c h = ground (arith, h)
  read_confidence-le (some null) c h = ground (arith, h)
  read_confidence-le (some (bool b)) c h = ground (arith, h)
  read_confidence-le (some (str t)) c h = ground (arith, h)
  read_confidence-le (some (arr t)) c h = ground (arith, h)
  read_confidence-le (some (obj t)) c h = ground (arith, h)

  to_parent_slug-trusted :
      (j : Option Json) (child p : Text)
      → to_parent_slug normalize j child known ≡ some p
      → (contains p known ≡ true) × (p ≢ child)
  unfolding to_parent_slug
  to_parent_slug-trusted (some (str value)) child p h =
      trusted_case (slug_or_none normalize value) h
    where
      trusted_case :
          (o : Option Text)
          → trusted normalize known child o ≡ some p
          → (contains p known ≡ true) × (p ≢ child)
      trusted_case none k = cc
      trusted_case (some q) k = ground (arith, k, text_beq_iff q child)
  to_parent_slug-trusted none child p h = cc
  to_parent_slug-trusted (some null) child p h = cc
  to_parent_slug-trusted (some (bool b)) child p h = cc
  to_parent_slug-trusted (some (int b n)) child p h = cc
  to_parent_slug-trusted (some (float f)) child p h = cc
  to_parent_slug-trusted (some (arr t)) child p h = cc
  to_parent_slug-trusted (some (obj t)) child p h = cc

  slug_or_none-some :
      (label slug : Text)
      → slug_or_none normalize label ≡ some slug
      → slugify normalize label ≡ ok slug
  slug_or_none-some label slug h = elim (Result-cases (slugify normalize label)) [
    | inl (own, q) ↦ ground (arith, q, h)
    | inr (e, q) ↦ absurd (ground (arith, q, h))
  ]

  with_slug-IsTrusted :
      (entry : Fields) (label : Text) (slug : Option Text) (s : TagSuggestion)
      → KeepsSpaces normalize
      → slug_or_none normalize label ≡ slug
      → with_slug normalize known entry label slug ≡ ok (some s)
      → IsTrusted s
  unfolding with_slug build_suggestion slug_of
  with_slug-IsTrusted entry label none s spaces own h = absurd (ground arith)
  with_slug-IsTrusted entry label (some slug) s spaces own h =
      elim (Result-cases (read_confidence (get (codes "confidence") entry))) [
        | inr (e, q) ↦ absurd (ground (arith, q, h))
        | inl (none, q) ↦ absurd (ground (arith, q, h))
        | inl (some c, q) ↦
            let b = to_parent_slug normalize (get (codes "broader_than") entry) slug known in
            let stripped : s.label ≡ strip label = ground (arith, q, h) in
            record {
              slug = slug;
              named =
                  ap (slugify normalize) stripped
                  ∙ slugify-strip normalize label spaces
                  ∙ slug_or_none-some label slug own;
              in_range =
                  ground (arith, q, h, read_confidence-le (get (codes "confidence") entry) c q);
              novelty = ground (arith, q, h);
              parent = λ p m.
                  to_parent_slug-trusted (get (codes "broader_than") entry) slug p
                    (ground (arith, q, h, m));
            }
      ]

  with_label-IsTrusted :
      (entry : Fields) (label : Option Json) (s : TagSuggestion)
      → KeepsSpaces normalize
      → with_label normalize known entry label ≡ ok (some s)
      → IsTrusted s
  unfolding with_label
  with_label-IsTrusted entry (some (str label)) s spaces h =
      with_slug-IsTrusted entry label (slug_or_none normalize label) s spaces refl h
  with_label-IsTrusted entry none s spaces h = absurd (ground arith)
  with_label-IsTrusted entry (some null) s spaces h = absurd (ground arith)
  with_label-IsTrusted entry (some (bool b)) s spaces h = absurd (ground arith)
  with_label-IsTrusted entry (some (int b n)) s spaces h = absurd (ground arith)
  with_label-IsTrusted entry (some (float f)) s spaces h = absurd (ground arith)
  with_label-IsTrusted entry (some (arr t)) s spaces h = absurd (ground arith)
  with_label-IsTrusted entry (some (obj t)) s spaces h = absurd (ground arith)

  to_suggestion-IsTrusted :
      (j : Json) (s : TagSuggestion)
      → KeepsSpaces normalize
      → to_suggestion normalize known j ≡ ok (some s)
      → IsTrusted s
  unfolding to_suggestion
  to_suggestion-IsTrusted (obj entry) s spaces h =
      with_label-IsTrusted entry (get (codes "label") entry) s spaces h
  to_suggestion-IsTrusted null s spaces h = absurd (ground arith)
  to_suggestion-IsTrusted (bool b) s spaces h = absurd (ground arith)
  to_suggestion-IsTrusted (int b n) s spaces h = absurd (ground arith)
  to_suggestion-IsTrusted (float f) s spaces h = absurd (ground arith)
  to_suggestion-IsTrusted (str t) s spaces h = absurd (ground arith)
  to_suggestion-IsTrusted (arr t) s spaces h = absurd (ground arith)

  cons_to-ok :
      (s : TagSuggestion) (r : Result (List TagSuggestion)) (ss : List TagSuggestion)
      → cons_to normalize s r ≡ ok ss
      → (rest : List TagSuggestion) × (r ≡ ok rest) × (s ∷ rest ≡ ss)
  cons_to-ok s (ok rest) ss h = (rest, refl, ground arith)
  cons_to-ok s (raise e) ss h = absurd (ground arith)

  -- What a list of suggestions read from so many entries satisfies.
  pub record IsRead (seen : List Text) (count : ℕ) (ss : List TagSuggestion) : Type 0 where
    pub no_more : length ss ≤ count
    pub each : All IsTrusted ss
    pub fresh : IsFresh seen ss

  more :
      (seen : List Text) (n : ℕ) (ss : List TagSuggestion)
      → IsRead seen n ss
      → IsRead seen (suc n) ss
  more seen n ss h = record { no_more = omega arith; each = h.each; fresh = h.fresh }

  read_entries-IsRead :
      (seen : List Text) (entries : List Json) (ss : List TagSuggestion)
      → KeepsSpaces normalize
      → read_entries normalize known seen entries ≡ ok ss
      → IsRead seen (length entries) ss
  unfolding read_entries
  read_entries-IsRead seen [] ss spaces h =
      let same : [] ≡ ss = ground arith in
      subst (IsRead seen 0) same (record { no_more = omega arith; each = tt; fresh = tt })
  read_entries-IsRead seen (j ∷ js) ss spaces h =
      elim (Result-cases (to_suggestion normalize known j)) [
        | inr (e, q) ↦ absurd (ground (arith, q, h))
        | inl (none, q) ↦
            more seen (length js) ss (read_entries-IsRead seen js ss spaces (ground (arith, q, h)))
        | inl (some s, q) ↦ elim (Result-cases (slug_of normalize s)) [
          | inr (e, r) ↦ absurd (ground (arith, q, r, h))
          | inl (slug, r) ↦ elim (Bool-cases (contains slug seen)) [
            | inl old ↦
                more seen (length js) ss
                  (read_entries-IsRead seen js ss spaces (ground (arith, q, r, old, h)))
            | inr new ↦
                let (rest, run, same) =
                  cons_to-ok s (read_entries normalize known (slug ∷ seen) js) ss
                    (ground (arith, q, r, new, h)) in
                let ih = read_entries-IsRead (slug ∷ seen) js rest spaces run in
                subst (IsRead seen (suc (length js))) same (record {
                  no_more = omega (arith, ih.no_more);
                  each = (to_suggestion-IsTrusted j s spaces q, ih.each);
                  fresh = (slug, r, new, ih.fresh);
                })
          ]
        ]
      ]

  some_suggestion-ok :
      (r : Result (List TagSuggestion)) (ss : List TagSuggestion)
      → some_suggestion normalize r ≡ ok ss
      → (r ≡ ok ss) × (ss ≢ [])
  some_suggestion-ok (ok []) ss h = absurd (ground arith)
  some_suggestion-ok (ok (s ∷ rest)) ss h = (h, ground arith)
  some_suggestion-ok (raise e) ss h = absurd (ground arith)

module _ (normalize : Text → Text) where
  read_tags-IsRead :
      (known_tags : List Text) (tags : Option Json) (ss : List TagSuggestion)
      → KeepsSpaces normalize
      → read_tags normalize known_tags tags ≡ ok ss
      → (ss ≢ []) × IsRead normalize (known_slugs normalize known_tags) [] max_suggestions ss
  unfolding read_tags
  read_tags-IsRead known_tags (some (arr entries)) ss spaces h =
      let known = known_slugs normalize known_tags in
      let first = take max_suggestions (to_list entries) in
      let (run, some') =
        some_suggestion-ok normalize known (read_entries normalize known [] first) ss h in
      let r = read_entries-IsRead normalize known [] first ss spaces run in
      (
        some',
        record {
          no_more = omega (arith, r.no_more, length-take-le max_suggestions (to_list entries));
          each = r.each;
          fresh = r.fresh;
        },
      )
  read_tags-IsRead known_tags none ss spaces h = absurd (ground arith)
  read_tags-IsRead known_tags (some null) ss spaces h = absurd (ground arith)
  read_tags-IsRead known_tags (some (bool b)) ss spaces h = absurd (ground arith)
  read_tags-IsRead known_tags (some (int b n)) ss spaces h = absurd (ground arith)
  read_tags-IsRead known_tags (some (float f)) ss spaces h = absurd (ground arith)
  read_tags-IsRead known_tags (some (str t)) ss spaces h = absurd (ground arith)
  read_tags-IsRead known_tags (some (obj t)) ss spaces h = absurd (ground arith)

  -- Where normalising a text keeps the spaces around it: whatever the model answers, the suggestions
  -- that `parse_response` returns are at least one and at most `max_suggestions`, each label has a
  -- slug and no two have the same, each has a confidence from 0 to 1 and is new exactly when its slug
  -- was not shown, and each parent is a slug that was shown and another one.
  pub parse_response-IsRead :
      (loads : Text → Option Json) (raw : Text) (known_tags : List Text) (ss : List TagSuggestion)
      → KeepsSpaces normalize
      → parse_response normalize loads raw known_tags ≡ ok ss
      → (ss ≢ []) × IsRead normalize (known_slugs normalize known_tags) [] max_suggestions ss
  unfolding parse_response
  parse_response-IsRead loads raw known_tags ss spaces h =
      elim (Result-cases (load_json normalize loads raw)) [
        | inr (e, q) ↦ absurd (ground (arith, q, h))
        | inl (payload, q) ↦
            read_tags-IsRead known_tags (get (codes "tags") payload) ss spaces
              (ground (arith, q, h))
      ]
