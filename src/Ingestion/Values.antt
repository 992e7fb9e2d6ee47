-- ===== src/Ingestion/Values.antt =====
-- JSON values as Python tests and walks them, in catchment/ingestion.
use catchment.Prelude.{
  Bool, List, Option, Text, [], contains, false, if◌then◌else◌, map, nat_beq, nat_eq, none, not,
  pair_eq, some, text_eq, true, ◌∷◌,
}
use catchment.Prelude.Json.{
  Fields, Json, arr, bool, cons, end, field, finite, float, int, nil, null, obj, str, to_list,
}
use catchment.Storage.Session.{Result, ok, raise, type_error}

-- `bool(value)`.
unfoldable pub is_truthy : Json → Bool
is_truthy null = false
is_truthy (bool b) = b
is_truthy (int negative n) = not (nat_beq n 0)
is_truthy (float (finite negative units)) = not (nat_beq units 0)
is_truthy (float _) = true
is_truthy (str []) = false
is_truthy (str (c ∷ cs)) = true
is_truthy (arr nil) = false
is_truthy (arr (cons j js)) = true
is_truthy (obj end) = false
is_truthy (obj (field k v rest)) = true

-- The text of a value that is one.
abbrev pub text_of : Option Json → Option Text
text_of (some (str t)) = some t
text_of _ = none

-- `value or {}`.
abbrev pub or_object : Option Json → Json
or_object none = obj end
or_object (some j) = if is_truthy j then j else obj end

unfoldable pub append_fields : Fields → Fields → Fields
append_fields end more = more
append_fields (field k v rest) more = field k v (append_fields rest more)

-- The keys of an object, each once, where it stands first.
unfoldable pub keys_but : List Text → Fields → List Text
keys_but seen end = []
keys_but seen (field k v rest) =
    let fresh = k ∷ keys_but (k ∷ seen) rest in
    if contains k seen then keys_but seen rest else fresh

abbrev pub walked : Json → Result (List Json)
walked (str t) = ok (map (λ c. str (c ∷ [])) t)
walked (arr js) = ok (to_list js)
walked (obj fields) = ok (map str (keys_but [] fields))
walked _ = raise type_error

-- What `for x in value or []` walks: a number or `true` is not iterable.
unfoldable pub iterate : Option Json → Result (List Json)
iterate none = ok []
iterate (some j) = if is_truthy j then walked j else ok []

abbrev pub map_ok : {A B : Type 0} → (A → B) → Result A → Result B
map_ok f (ok a) = ok (f a)
map_ok f (raise e) = raise e
