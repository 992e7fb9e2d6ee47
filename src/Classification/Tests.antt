-- ===== src/Classification/Tests.antt =====
-- Concrete inputs of the theorems on classification.
use catchment.Prelude.{
  Option, Text, [], arith, false, length, nat_eq, none, pair_eq, refl, some, suc, text_eq, true,
  ◌+◌, ◌∷◌, ◌≡◌, ◌≢◌, ◌≤◌, ◌⊎◌,
}
use catchment.Prelude.Json.{Json, arr, cons, end, field, int, nil, obj, one, str}
use catchment.Prelude.Strip.{codes, strip}
use catchment.Storage.Session.{ok, raise, value_error}
use catchment.Storage.Tags.Cycles.{NoCycle}
use catchment.Storage.Tests.{no_edges-NoCycle, sample}
use catchment.Classification.Slug.{ascii_lower, slugify}
use catchment.Classification.Slug.Shape.{IsSlug, slugify-IsSlug}
use catchment.Classification.Slug.Fixed.{has_alnum, slugify-total}
use catchment.Classification.Types.{TagSuggestion, slug_of}
use catchment.Classification.Prompt.{
  float_limit, known_slugs, max_suggestions, parse_response, read_entries, to_suggestion,
}
use catchment.Classification.Prompt.Parsed.{IsRead, parse_response-IsRead}
use catchment.Classification.Service.{Services, Settings, classify_item}
use catchment.Classification.Service.Cap.{Slugged}
use catchment.Classification.Service.Whole.{classify_item-NoCycle, classify_item-edges}
use catchment.Classification.Service.Coined.{classify_item-tags}
use catchment.Classification.Slug.Spaces.{same-KeepsSpaces}

abbrev suggestion : Text → TagSuggestion
suggestion label = record {
  label = label;
  confidence = 6;
  is_new = true;
  description = none;
  broader_than = some (codes "a");
}

abbrev slugged : Slugged
slugged =
    (codes "a", suggestion (codes "a"))
    ∷ (codes "b", suggestion (codes "b"))
    ∷ (codes "c", suggestion (codes "c"))
    ∷ []

-- A model that names the tag `rust` with the confidence 1, under `a`.
abbrev one_answer : Text → Option Json
one_answer raw = some (
    obj (
      field (codes "tags")
        (arr (
          cons
            (obj (
              field (codes "label") (str (codes "rust")) (
                field (codes "confidence") (int false 1)
                  (field (codes "broader_than") (str (codes "a")) end))))
            nil))
        end))

abbrev answered : TagSuggestion
answered = record {
  label = codes "rust";
  confidence = one;
  is_new = true;
  description = none;
  broader_than = some (codes "a");
}

abbrev unchanged_text : Text → Text
unchanged_text t = t

-- Services that give one answer: a vector, and two new tags under the tag `a`.
abbrev pub some_services : Services
some_services = record {
  normalize = λ t. t;
  embed = λ texts. ok ([] ∷ []);
  classify = λ content known. ok (record {
    suggestions = suggestion (codes "Neural Nets") ∷ suggestion (codes "rust") ∷ [];
    model = codes "m";
    trace_id = none;
  });
  distance = λ v w. 0;
  collate = λ a b. true;
}

abbrev pub some_settings : Settings
some_settings = record {
  embedding_model = codes "bge";
  classification_threshold = 5;
  classification_neighbours = 5;
  max_new_tags_per_item = 1;
  max_new_edges_per_item = 1;
}

slugify-IsSlug_example : IsSlug (codes "a-b")
unfolding slugify
slugify-IsSlug_example = slugify-IsSlug unchanged_text (codes "A  b!") (codes "a-b") refl

slugify-total_example :
    ((has_alnum (ascii_lower (unchanged_text (codes "A b!"))) ≡ false)
      × (slugify unchanged_text (codes "A b!") ≡ raise value_error))
    ⊎ ((has_alnum (ascii_lower (unchanged_text (codes "A b!"))) ≡ true)
        × (found : Text) × (slugify unchanged_text (codes "A b!") ≡ ok found)
        × IsSlug found)
unfolding ascii_lower slugify
slugify-total_example = slugify-total unchanged_text (codes "A  b!")

classify_item-edges_example :
    length (classify_item some_services some_settings 3 7 (codes "text") (sample [] [])).1.edges
    ≤ length (sample [] []).edges + some_settings.max_new_edges_per_item
classify_item-edges_example =
    classify_item-edges some_services some_settings 3 7 (codes "text") (sample [] []) (omega arith)
      (omega arith)

classify_item-NoCycle_example :
    NoCycle
      (classify_item some_services some_settings 3 7 (codes "text") (sample [] [])).1.edges
      (suc 3)
classify_item-NoCycle_example =
    classify_item-NoCycle some_services some_settings 3 7 (codes "text") (sample [] [])
      (omega arith) (omega arith) (no_edges-NoCycle 4)

classify_item-tags_example :
    length (classify_item some_services some_settings 3 7 (codes "text") (sample [] [])).1.tags
    ≤ length (sample [] []).tags + some_settings.max_new_tags_per_item
classify_item-tags_example =
    classify_item-tags some_services some_settings 3 7 (codes "text") (sample [] [])

parse_response-IsRead_example :
    ((answered ∷ []) ≢ [])
    × IsRead unchanged_text
        (known_slugs unchanged_text (codes "a" ∷ []))
        []
        max_suggestions
        (answered ∷ [])
unfolding parse_response read_entries to_suggestion slugify float_limit one slug_of strip
    known_slugs
parse_response-IsRead_example =
    parse_response-IsRead unchanged_text one_answer [] (codes "a" ∷ []) (answered ∷ [])
      same-KeepsSpaces refl
