-- ===== src/Prelude/Json.antt =====
-- JSON values as Python's `json` reads them, and its floats.
-- A finite double is a whole number of units of 2 ^ -1074, so comparisons on units are exact.
use Prim.Native.Nat.{ℕ, ◌^◌}
use mathlib.Core.Bool.{Bool}
use mathlib.Core.List.{List, [], ◌∷◌}
use mathlib.Core.Option.{Option, none, some}
use catchment.Prelude.Tests.{Text, text_beq, if◌then◌else◌}

-- 1.0, in units.
unfoldable pub one : ℕ
one = 2 ^ 1074

pub data Float : Type 0 where
  nan : Float
  inf : Bool → Float
  finite : Bool → ℕ → Float

mutual
  pub data Json : Type 0 where
    null : Json
    bool : Bool → Json
    int : Bool → ℕ → Json
    float : Float → Json
    str : Text → Json
    arr : Items → Json
    obj : Fields → Json

  pub data Items : Type 0 where
    nil : Items
    cons : Json → Items → Items

  pub data Fields : Type 0 where
    end : Fields
    field : Text → Json → Fields → Fields

-- `payload.get(name)`; of two fields with one name Python's `dict` keeps the later.
abbrev pub get_from : Option Json → Text → Fields → Option Json
get_from found name end = found
get_from found name (field k v rest) =
    get_from (if text_beq k name then some v else found) name rest

abbrev pub get : Text → Fields → Option Json
get = get_from none

abbrev pub to_list : Items → List Json
to_list nil = []
to_list (cons j js) = j ∷ to_list js
