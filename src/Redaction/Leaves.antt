-- ===== src/Redaction/Leaves.antt =====
-- Which values a redacted mapping still holds.
use catchment.Prelude.{Bool, Text, false, nat_eq, pair_eq, text_eq, true, ◌≡◌, ◌⊎◌}
use catchment.Prelude.Json.{Fields, Json, end, field, obj}
use catchment.Redaction.{Texts, redact_value}

abbrev is_object : Json → Bool
is_object (obj inner) = true
is_object _ = false

-- A value that is no mapping stands under its name, at some depth of mappings.
unfoldable pub Leaf : Text → Json → Fields → Type 0
Leaf name value end = ⊥
Leaf name value (field k (obj inner) rest) = Leaf name value inner ⊎ Leaf name value rest
Leaf name value (field k v rest) = ((k ≡ name) × (v ≡ value)) ⊎ Leaf name value rest

module _ (x : Texts) (allow_content : Bool) where
  -- Where a value of the redacted mapping comes from: one of the mapping that was given, under the
  -- same name.
  abbrev IsFrom : Text → Json → Fields → Type 0
  IsFrom name value m =
      (old : Json) × Leaf name old m × (value ≡ redact_value x name old allow_content)
