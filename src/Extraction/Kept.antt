-- ===== src/Extraction/Kept.antt =====
-- What an article that is kept is.
use catchment.Prelude.{
  Bool, Bool-cases, Option, Text, [], ap, arith, inl, inr, length, length-append, length-take-le,
  ltb, ltb-not, nat_eq, none, pair_eq, refl, some, subst, suc, sym, take, text_eq, true, ℕ, ◌+◌,
  ◌∙◌, ◌∷◌, ◌≡◌, ◌≤◌,
}
use catchment.Prelude.Strip.{close_back, drop_back, is_empty, is_space, rstrip, strip}
use catchment.Storage.Session.{Result, Result-cases, ok, raise}
use catchment.Jobs.Stages.{ExtractionResult}
use catchment.Extraction.{
  Reader, article, article_text, bounded_text, extract_article, fetch_page, fetchable,
  fetched_article, is_allowed_scheme, kept_title, max_article_chars, min_article_chars, or_empty,
  parse_page, parsed_article, suffix, target_article, validate_url, with_title,
}

length-close_back : (p : ℕ → Bool) (c : ℕ) (t : Text) → length (close_back p c t) ≤ suc (length t)
length-close_back p c [] = ground arith
length-close_back p c (d ∷ ds) = ground arith

length-drop_back : (p : ℕ → Bool) (t : Text) → length (drop_back p t) ≤ length t
unfolding drop_back
length-drop_back p [] = ground arith
length-drop_back p (c ∷ cs) =
    omega (arith, length-close_back p c (drop_back p cs), length-drop_back p cs)

length-rstrip : (t : Text) → length (rstrip t) ≤ length t
unfolding rstrip
length-rstrip t = length-drop_back is_space t

length-bounded_text : (limit : ℕ) (t : Text) → length (bounded_text limit t) ≤ limit + length suffix
unfolding bounded_text
length-bounded_text limit t = elim (Bool-cases (ltb limit (length t))) [
  | inr e ↦ rw e (omega (arith, ltb-not limit (length t) e))
  | inl e ↦ rw e (
      omega (
        arith,
        length-rstrip (take limit t),
        length-take-le limit t,
        length-append (rstrip (take limit t)) suffix,
      ))
]

-- What `_validate_url` lets through.
abbrev IsFetchable : Reader → Option Text → Text → Type 0
IsFetchable reader url target =
    (scheme : Text) × (host : Text) × (target ≡ strip (or_empty url))
    × (reader.urlparse target ≡ ok (scheme, some host))
    × (is_allowed_scheme scheme ≡ true)

fetchable-ok :
    (candidate target : Text) (parsed : Result (Text × Option Text))
    → fetchable candidate parsed ≡ ok target
    → (candidate ≡ target)
      × (scheme : Text) × (host : Text) × (parsed ≡ ok (scheme, some host))
      × (is_allowed_scheme scheme ≡ true)
fetchable-ok candidate target (raise e) h = ground (arith, h)
fetchable-ok candidate target (ok (scheme, none)) h = elim (Bool-cases (is_allowed_scheme scheme)) [
  | inl e ↦ ground (arith, e, h)
  | inr e ↦ ground (arith, e, h)
]
fetchable-ok candidate target (ok (scheme, some [])) h =
    elim (Bool-cases (is_allowed_scheme scheme)) [
      | inl e ↦ ground (arith, e, h)
      | inr e ↦ ground (arith, e, h)
    ]
fetchable-ok candidate target (ok (scheme, some (c ∷ cs))) h =
    elim (Bool-cases (is_allowed_scheme scheme)) [
      | inl e ↦ (ground (arith, e, h), scheme, c ∷ cs, refl, e)
      | inr e ↦ ground (arith, e, h)
    ]

validate_url-IsFetchable :
    (reader : Reader) (url : Option Text) (target : Text)
    → validate_url reader url ≡ ok target
    → IsFetchable reader url target
unfolding validate_url
validate_url-IsFetchable reader url target h = elim (Bool-cases (is_empty (strip (or_empty url)))) [
  | inl e ↦ ground (arith, e, h)
  | inr e ↦
      let candidate = strip (or_empty url) in
      let (same, scheme, host, parsed, allowed) =
        fetchable-ok candidate target (reader.urlparse candidate) (ground (arith, e, h)) in
      (scheme, host, sym same, ap reader.urlparse (sym same) ∙ parsed, allowed)
]

article_text-ok :
    (found : Result (Option Text)) (t : Text)
    → article_text found ≡ ok t
    → (raw : Text) × (found ≡ ok (some raw))
      × (t ≡ strip raw)
      × (min_article_chars ≤ length (strip raw))
article_text-ok (raise e) t h = ground (arith, h)
article_text-ok (ok none) t h = ground (arith, h)
article_text-ok (ok (some raw)) t h = elim (Bool-cases (is_empty raw)) [
  | inl e ↦ ground (arith, e, h)
  | inr e ↦ elim (Bool-cases (ltb (length (strip raw)) min_article_chars)) [
    | inl f ↦ ground (arith, e, f, h)
    | inr f ↦ (raw, refl, ground (arith, e, f, h), ltb-not (length (strip raw)) min_article_chars f)
  ]
]

-- An article that is kept: where its link leads, what the reader found, and its text.
abbrev pub IsKept : Reader → Option Text → ExtractionResult → Type 0
IsKept reader url r =
    (target : Text) × (html : Text) × (raw : Text) × IsFetchable reader url target
    × (fetch_page reader target ≡ ok html)
    × (reader.extract html target ≡ ok (some raw))
    × (min_article_chars ≤ length (strip raw))
    × (r.text ≡ bounded_text max_article_chars (strip raw))
    × (length r.text ≤ max_article_chars + length suffix)

with_title-ok :
    (title : Option Text) (found : Result Text) (t : Text × Option Text)
    → with_title title found ≡ ok t
    → (found ≡ ok t.0)
with_title-ok title (raise e) t h = ground (arith, h)
with_title-ok title (ok found) t h = ground (arith, h)

-- An article that is kept comes from the link without the spaces around it, whose scheme is http or
-- https and which has a host; the reader found at least 80 characters in its page, not counting
-- spaces around them; and its text is these, cut at 100,000 characters and marked where there are
-- more, so never longer than that and the mark together.
pub extract_article-IsKept :
    (reader : Reader) (url : Option Text) (r : ExtractionResult)
    → extract_article reader url ≡ ok r
    → IsKept reader url r
unfolding extract_article parse_page
extract_article-IsKept reader url r h = elim (Result-cases (validate_url reader url)) [
  | inr (e, v) ↦ ground (arith, v, h)
  | inl (target, v) ↦
      let at_target = sym (ap (target_article reader) v) ∙ h in
      elim (Result-cases (fetch_page reader target)) [
        | inr (e, f) ↦ ground (arith, f, at_target)
        | inl (html, f) ↦
            let at_html = sym (ap (fetched_article reader target) f) ∙ at_target in
            elim (Result-cases (parse_page reader html target)) [
              | inr (e, p) ↦ ground (arith, p, at_html)
              | inl (found, p) ↦
                  let same : article target found ≡ r =
                    ground (arith, sym (ap (parsed_article target) p) ∙ at_html) in
                  let (raw, from, stripped, enough) =
                    article_text-ok (reader.extract html target) found.0 (
                      with_title-ok (kept_title (reader.extract_title html target))
                        (article_text (reader.extract html target)) found p) in
                  let content =
                    sym (ap (λ x. x.text) same) ∙ ap (bounded_text max_article_chars) stripped in
                  (
                    target,
                    html,
                    raw,
                    validate_url-IsFetchable reader url target v,
                    f,
                    from,
                    enough,
                    content,
                    subst (λ x. length x ≤ max_article_chars + length suffix) (sym content)
                        (length-bounded_text max_article_chars (strip raw)),
                  )
            ]
      ]
]
