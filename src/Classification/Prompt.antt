-- ===== src/Classification/Prompt.antt =====
-- The parser of catchment/classification/prompt.py.
-- `normalize` is `unicodedata.normalize("NFKD", ·)`, and `loads` is `json.loads`, with nothing for a
-- `JSONDecodeError`.
pub mod Parsed
use Prim.Native.Nat.{◌*◌, ◌^◌, ◌-◌}
use catchment.Prelude.{
  Bool, List, Option, Text, [], contains, false, if◌then◌else◌, leb, nat_beq, nat_eq, none, not,
  pair_eq, some, suc, take, text_beq, text_eq, true, zero, ℕ, ◌*◌, ◌-◌, ◌==◌, ◌^◌, ◌||◌, ◌∷◌,
}
use catchment.Prelude.Json.{
  Fields, Float, Json, arr, finite, float, get, inf, int, nan, obj, one, str, to_list,
}
use catchment.Prelude.Strip.{codes, is_empty, strip}
use catchment.Storage.Models.{Confidence}
use catchment.Storage.Session.{Result, ok, overflow_error, parse_error, raise}
use catchment.Classification.Slug.{slugify}
use catchment.Classification.Types.{TagSuggestion, slug_of}

abbrev pub max_suggestions : ℕ
max_suggestions = 8

-- `float(n)` of an integer: the first integer that rounds to no finite double raises. (A double of
-- more than 53 bits is rounded; such a value is only compared with 0 and 1.)
unfoldable pub float_limit : ℕ
float_limit = 2 ^ 1024 - 2 ^ 970

unfoldable pub float_of_int : Bool → ℕ → Result Float
float_of_int negative n =
    if leb float_limit n then raise overflow_error else ok (finite negative (n * one))

-- `0.0 <= confidence <= 1.0`, and the value in units.
unfoldable pub in_unit_range : Float → Option Confidence
in_unit_range nan = none
in_unit_range (inf negative) = none
in_unit_range (finite true units) = if nat_beq units 0 then some 0 else none
in_unit_range (finite false units) = if leb units one then some units else none

-- The checks on `entry.get("confidence")`: a number that is no bool, in range.
unfoldable pub read_confidence : Option Json → Result (Option Confidence)
unfolding float_of_int in_unit_range
read_confidence (some (int negative n)) = elim (float_of_int negative n) [
  | ok f ↦ ok (in_unit_range f)
  | raise e ↦ raise e
]
read_confidence (some (float f)) = ok (in_unit_range f)
read_confidence other = ok none

-- A description that is no text, or blank, is none.
unfoldable pub read_description : Option Json → Option Text
read_description (some (str t)) = if is_empty (strip t) then none else some t
read_description other = none

module _ (normalize : Text → Text) where
  -- `_sluggable` and `slugify` in one.
  abbrev pub slug_or_none : Text → Option Text
  slug_or_none label = elim (slugify normalize label) [ ok slug ↦ some slug | raise e ↦ none ]

  -- `{slugify(tag) for tag in known_tags if _sluggable(tag)}`.
  unfoldable pub known_slugs : List Text → List Text
  known_slugs [] = []
  known_slugs (tag ∷ tags) = elim (slug_or_none tag) [
    | some slug ↦ slug ∷ known_slugs tags
    | none ↦ known_slugs tags
  ]

  abbrev pub trusted : List Text → Text → Option Text → Option Text
  trusted known child none = none
  trusted known child (some parent) =
      if parent == child || not (contains parent known) then none else some parent

  unfoldable pub to_parent_slug : Option Json → Text → List Text → Option Text
  to_parent_slug (some (str value)) child known = trusted known child (slug_or_none value)
  to_parent_slug other child known = none

  -- The end of `_to_suggestion`, from the confidence on.
  unfoldable pub build_suggestion :
      List Text → Fields → Text → Text → Option Confidence → Option TagSuggestion
  unfolding to_parent_slug read_description
  build_suggestion known entry label slug none = none
  build_suggestion known entry label slug (some confidence) = some (record {
    label = strip label;
    confidence = confidence;
    is_new = not (contains slug known);
    description = read_description (get (codes "description") entry);
    broader_than = to_parent_slug (get (codes "broader_than") entry) slug known;
  })

  -- From the slug of the label on: a label without one makes the entry unusable.
  unfoldable pub with_slug : List Text → Fields → Text → Option Text → Result (Option TagSuggestion)
  unfolding build_suggestion read_confidence
  with_slug known entry label none = ok none
  with_slug known entry label (some slug) =
      elim (read_confidence (get (codes "confidence") entry)) [
        | ok confidence ↦ ok (build_suggestion known entry label slug confidence)
        | raise e ↦ raise e
      ]

  unfoldable pub with_label : List Text → Fields → Option Json → Result (Option TagSuggestion)
  unfolding with_slug
  with_label known entry (some (str label)) = with_slug known entry label (slug_or_none label)
  with_label known entry other = ok none

  unfoldable pub to_suggestion : List Text → Json → Result (Option TagSuggestion)
  unfolding with_label
  to_suggestion known (obj entry) = with_label known entry (get (codes "label") entry)
  to_suggestion known other = ok none

  abbrev pub cons_to : TagSuggestion → Result (List TagSuggestion) → Result (List TagSuggestion)
  cons_to s (ok rest) = ok (s ∷ rest)
  cons_to s (raise e) = raise e

  -- The loop of `parse_response`; `seen` holds the slugs of the suggestions so far.
  unfoldable pub read_entries : List Text → List Text → List Json → Result (List TagSuggestion)
  read_entries known seen [] = ok []
  read_entries known seen (entry ∷ entries) = elim (to_suggestion known entry) [
    | raise e ↦ raise e
    | ok none ↦ read_entries known seen entries
    | ok (some s) ↦ elim (slug_of normalize s) [
      | raise e ↦ raise e
      | ok slug ↦ elim (contains slug seen) [
        | true ↦ read_entries known seen entries
        | false ↦ cons_to s (read_entries known (slug ∷ seen) entries)
      ]
    ]
  ]

  abbrev pub some_suggestion : Result (List TagSuggestion) → Result (List TagSuggestion)
  some_suggestion (ok []) = raise parse_error
  some_suggestion other = other

  unfoldable pub read_tags : List Text → Option Json → Result (List TagSuggestion)
  read_tags known_tags (some (arr entries)) =
      some_suggestion
        (read_entries (known_slugs known_tags) [] (take max_suggestions (to_list entries)))
  read_tags known_tags other = raise parse_error

  module _ (loads : Text → Option Json) where
    -- The part of a text before the next fence of three backquotes, if there is one.
    unfoldable pub before_fence : Text → Option Text
    before_fence [] = none
    before_fence (c ∷ cs) =
        let rest = before_fence cs in
        if text_beq (take 3 (c ∷ cs)) (codes "```")
        then some []
        else elim rest [ none ↦ none | some t ↦ some (c ∷ t) ]

    abbrev pub drop : ℕ → Text → Text
    drop zero t = t
    drop (suc n) [] = []
    drop (suc n) (c ∷ cs) = drop n cs

    -- `.removeprefix("json")`.
    abbrev remove_json : Text → Text
    remove_json t = if text_beq (take 4 t) (codes "json") then drop 4 t else t

    abbrev fenced : Text → Option Text → Text
    fenced after none = after
    fenced after (some inside) = inside

    unfoldable pub unfence : Text → Text
    unfolding before_fence
    unfence t =
        if text_beq (take 3 t) (codes "```")
        then strip (remove_json (fenced (drop 3 t) (before_fence (drop 3 t))))
        else t

    abbrev pub only_object : Option Json → Result Fields
    only_object (some (obj fields)) = ok fields
    only_object other = raise parse_error

    unfoldable pub load_json : Text → Result Fields
    unfolding unfence
    load_json raw = only_object (loads (unfence (strip raw)))

    unfoldable pub parse_response : Text → List Text → Result (List TagSuggestion)
    unfolding load_json read_tags
    parse_response raw known_tags = elim (load_json raw) [
      | raise e ↦ raise e
      | ok payload ↦ read_tags known_tags (get (codes "tags") payload)
    ]
